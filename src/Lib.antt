-- ===== src/Lib.antt =====
-- Burnout 3 Recompiled: from a PlayStation 2 executable to the effect of its instructions.
--
-- An executable is parsed (ps2_elf), its load segments become the guest's memory (ps2_memory_map),
-- words of that memory are decoded (r5900_decoder), and a block of them is found by its control flow
-- (r5900_control_flow), and from it the blocks that its edges lead to (r5900_reachability). A decoded instruction is lowered to an intermediate form (r5900_ir), which is
-- validated (r5900_ir_validation) and executed by the reference executor (r5900_ir_executor). The
-- block dispatcher (r5900_block_dispatcher) puts these together: it runs the guest's program block by
-- block, compiles each block with a backend and keeps it in a cache.
--
-- Common                  numbers, bits, lists and tests that the parts share.
-- Recompiler/Decoder      src/recompiler/r5900_decoder.cpp: decode_r5900, its helpers by the same
--                         names, and direct_target. `word_fields` fills in the fields and
--                         `decode_opcode` is the switch on the opcode.
-- Recompiler/Ir           src/recompiler/r5900_ir.cpp: lower_r5900_instruction. `lower_as` is its
--                         switch, with the instruction as an argument.
-- Recompiler/Validation   src/recompiler/r5900_ir_validation.cpp, a definition for each function.
-- Recompiler/Executor     src/recompiler/r5900_ir_executor.cpp: execute_r5900_ir.
--                         `execute_instruction` is the switch on the opcode and `execute_loop` the
--                         loop. Execution changes a state; the call returns the state it leaves.
-- Recompiler/Isa          the instructions that can be lowered, as the architecture describes them.
-- Recompiler/Dispatcher   src/recompiler/windows/r5900_block_dispatcher.cpp: R5900BlockDispatcher.
--                         `run_loop` is the loop over blocks, `prefix_of` the loop that selects the
--                         instructions, `execute_prefix` the lookup with its two paths. The cache is
--                         an association list.
-- Recompiler/Elf          src/recompiler/ps2_elf.cpp: parse_ps2_elf. `read_segments` is the loop over
--                         the program headers. A read outside the file is a result of its own,
--                         `fault`.
-- Runtime/MemoryMap       src/runtime/ps2_memory_map.cpp: Ps2MemoryMap. `collect`, `sort_pending`,
--                         `has_overlap` and `allocate` are the steps of from_elf. A span is the region
--                         it is cut from and an offset, and a write returns the map it leaves.
-- Analysis/ControlFlow    src/analysis/r5900_control_flow.cpp: analyze_r5900_basic_block.
--                         `analyze_loop` is its loop and `finish_jump` the switch of
--                         finish_control_transfer.
-- Analysis/Reachability   src/analysis/r5900_reachability.cpp: analyze_r5900_reachability.
--                         `search_loop` is the loop over the worklist, `visit_edge` the switch on an
--                         edge and `schedule` the insertion of a target.
-- Analysis/ElfAnalysis    src/analysis/ps2_elf_analysis.cpp: analyze_ps2_elf, the parser, the map and the
--                         reachability analysis in a row. The text of the report is a parameter.
-- Tools                   the parsers in src/tools/burnout3_analyze_options.cpp and
--                         src/tools/burnout3_pacing_probe_options.cpp. `parse_loop` is the loop over
--                         the arguments, and `positive_integer` the reading of a count. A text is
--                         the list of its character codes.
-- Core/RuntimeOptions     src/core/runtime_options.cpp: RuntimeOptions::parse.
-- Core/FrameStats         src/core/frame_stats.cpp: FrameStats.
-- Core/PacingTelemetry    src/core/frame_pacing_telemetry.cpp: summarize_frame_pacing, each standard
--                         algorithm and the loop as a function. std::sort is an insertion sort,
--                         and a read out of range gives none.
-- Tests                   runs of the models on a small executable and on single instructions.
--
-- Numbers are naturals. A C++ integer of w bits is a natural below 2 ^ w, with `% 2 ^ w` where the
-- code wraps or narrows, and a signed one is its two's complement. `std::size_t` has 64 bits and
-- does not overflow here. Loops are recursion on a list or on the number of rounds that the loop's
-- own bound leaves. The loop over the worklist alone is on fuel, `2 * max_blocks + 2`: a round
-- takes one target off, a block adds two at most, and there are at most `max_blocks` blocks. Error
-- texts, and the indices and addresses that go into them, are left out but for the texts of the
-- runtime's options.
--
-- Parameters: `Backend`, the compiler of blocks of r5900_x64_backend.h and the execution of what it
-- compiled, with `IsBackend`, that a compiled block acts as the reference executor on accepted
-- instructions, and `IsGranted`, that the host refuses it nothing; `f32_add`, the host's addition
-- of floats on their bit patterns, `can_allocate`, whether the host grants a store of a given size;
-- and `Doubles` and `PacingDoubles`, the host's arithmetic on doubles, with `IsOrder`, that its
-- comparison orders the doubles that are numbers, and `HasRanks`, that a rank of at least 1 is
-- converted to a count of at least 1 below 2 ^ 64.
--
-- In from_elf the copy into a region's store stops at the end of the store. The parser accepts no
-- segment with more bytes in the file than in memory, so for a parsed image the copy is whole.
--
-- Not modelled: the x64 backend's code generation, src/core/frame_schedule.cpp, whose loop ends or
-- not by the rounding of doubles, and what is input and output: reports, the log, the
-- tools' applications, windows, timers and crash dumps.
pub mod Common
pub mod Recompiler
pub mod Runtime
pub mod Analysis
pub mod Tools
pub mod Core
pub mod Tests
