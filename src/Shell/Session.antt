-- ===== src/Shell/Session.antt =====
-- `shell_main` of src/apps/shell.cpp, over the lines that the editor returns. What the editor itself sends to
-- the UART is in Shell/Editor.
use rp4_demo.Base.{Bool, true, false, List, [], ◌∷◌, ◌++◌, if◌then◌else◌, Text, codes}
use rp4_demo.Pps.{Event, print, dash}
use rp4_demo.Shell.{dispatch}

-- The loop: whether the shell has returned, and the events. With each line comes what the kernel lists of
-- "/pps" when it is dispatched.
pub session : List (List Text × Text) → Bool × List Event
session [] = (false, print (codes "rp4> ") ∷ [])
session ((listed, cmd) ∷ cmds) =
    let (goes_on, es) = dispatch listed cmd in
    let rest = session cmds in
    if goes_on
    then (rest.0, print (codes "rp4> ") ∷ es ++ rest.1)
    else (true, print (codes "rp4> ") ∷ es)

pub shell_main : List (List Text × Text) → Bool × List Event
unfolding session
shell_main cmds =
    let (returned, es) = session cmds in
    (
      returned,
      print (codes "\nrp4 shell " ++ dash ++ codes " commands publish to /pps/cmd/\n") ∷ es,
    )
