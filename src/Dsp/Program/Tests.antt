-- ===== src/Dsp/Program/Tests.antt =====
-- The theorem on `parse` of src/dsp/dsp.cppm at a concrete program.
use rp4_demo.Base.{ℕ, some, [], codes, Text}
use rp4_demo.Dsp.Tokens.{Numbers}
use rp4_demo.Dsp.Parser.Outcome.{Gives}
use rp4_demo.Dsp.Program.{parse_program}
use rp4_demo.Dsp.Program.Definitions.{OneArgProgram, parse_program-Gives}

abbrev ones : Numbers ℕ
ones = record { stof = λ s. some 1; f_nil = 0 }

-- The call has two arguments in the text.
abbrev source : Text
source = codes "f(x,y) = x; process = f(1, 2);"

parse_program-Gives_example : Gives OneArgProgram (parse_program ones [] source)
parse_program-Gives_example = parse_program-Gives ones [] source tt
