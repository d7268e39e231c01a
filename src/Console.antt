-- ===== src/Console.antt =====
-- src/apps/console.cpp: the handler that shows every notification on the UART.
use rp4_demo.Base.{List, [], ◌∷◌, ◌++◌, Text, codes}
use rp4_demo.Pps.{Event, print, Notification, Kind, created, modified, deleted}

abbrev pub kind_mark : Kind → Text
kind_mark created = codes "[+] "
kind_mark modified = codes "[~] "
kind_mark deleted = codes "[-] "

-- `for (auto c : text) uart::putc(c)`
abbrev pub put_chars : Text → List Event
put_chars [] = []
put_chars (c ∷ cs) = print (c ∷ []) ∷ put_chars cs

pub on_notification : Kind → Notification → List Event
on_notification kind n =
    print (kind_mark kind) ∷ put_chars n.path
    ++ print (codes " ") ∷ put_chars n.key
    ++ print (codes "=") ∷ put_chars n.value
    ++ print (codes "\n") ∷ []
