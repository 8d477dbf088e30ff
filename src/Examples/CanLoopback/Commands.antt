-- ===== src/Examples/CanLoopback/Commands.antt =====
-- The send commands of devkit/hal/can.h to the controller of qar-core/rtl/can.v.
use qar_mvp.Prelude.{
  ◌≡◌, refl, Bool, true, false, if◌then◌else◌, some, List, [], ◌∷◌, ◌++◌, ap, ◌∙◌,
}
use qar_mvp.Mmio.{Io, ret, read, write, hung, exec, ◌>>=◌}
use qar_mvp.Rtl.Can.{
  Frame, Controller, Port, p_tx_cmd, has_bit, mailbox, port_of, addr_word, can_bus,
}

abbrev is_command : Port → Bool
is_command p_tx_cmd = true
is_command _ = false

abbrev add_command : Bool → Controller → List (Bool × Frame) → List (Bool × Frame)
add_command command s rest = if command then (has_bit s.ctrl 0, mailbox s) ∷ rest else rest

-- The send commands of a run, the first one first: was the controller enabled, so that it sent, and
-- which frame was in the mailbox.
abbrev pub commands : {A : Type 0} → Io A → Controller → List (Bool × Frame)
commands (ret x) s = []
commands (read a k) s = commands (k (can_bus.get a s).0) (can_bus.get a s).1
commands (write a v k) s =
    add_command (is_command (port_of (addr_word a))) s (commands k (can_bus.put a v s))
commands hung s = []

add_command-append :
    (command : Bool) (s : Controller) (l m : List (Bool × Frame))
    → add_command command s (l ++ m) ≡ add_command command s l ++ m
add_command-append true s l m = refl
add_command-append false s l m = refl

pub commands->>= :
    {A B : Type 0} (m : Io A) (f : A → Io B) (s : Controller) {x : A} {t : Controller}
    → exec can_bus m s ≡ some (x, t)
    → commands (m >>= f) s ≡ commands m s ++ commands (f x) t
commands->>= (ret y) f s e = cc
commands->>= (read a k) f s e = commands->>= (k (can_bus.get a s).0) f (can_bus.get a s).1 e
commands->>= (write a v k) f s {x} {t} e =
    let command = is_command (port_of (addr_word a)) in
    ap (add_command command s) (commands->>= k f (can_bus.put a v s) e)
    ∙ add_command-append command s (commands k (can_bus.put a v s)) (commands (f x) t)
commands->>= hung f s e = cc
