-- ===== src/Tools/AnalyzeOptions/Reads.antt =====
-- The parser of the analysis tool's options gives what a command line asks for.
use burnout_3_recompiled.Common.{List}
use burnout_3_recompiled.Tools.AnalyzeOptions.{
  Burnout3AnalyzeOptionError as Error, ParserState, ValueOption,
}
use burnout_3_recompiled.Tools.AnalyzeOptions.Described.{Setting}
use burnout_3_recompiled.Tools.AnalyzeOptions.Asked.{
  last_elf, last_output, last_count, has_help, has_follow, has_value,
}

-- The state of the loop that the settings give.
abbrev state_after : List Setting → ParserState → ParserState
state_after settings s = record {
  options = record {
    elf_path = last_elf settings s.options.elf_path;
    output_path = last_output settings s.options.output_path;
    max_blocks = last_count settings s.options.max_blocks;
    follow_direct_calls = has_follow settings s.options.follow_direct_calls;
    show_help = has_help settings s.options.show_help;
  };
  saw_elf = has_value ValueOption.elf settings s.saw_elf;
  saw_output = has_value ValueOption.output settings s.saw_output;
  saw_max_blocks = has_value ValueOption.max_blocks settings s.saw_max_blocks;
  saw_follow_direct_calls = has_follow settings s.saw_follow_direct_calls;
}
