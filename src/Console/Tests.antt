-- ===== src/Console/Tests.antt =====
-- Runs of the operations on the list of consoles.
use ultra.Prelude.{
  ◌≡◌, ◌⊎◌, refl, true, false, none, some, [], ◌∷◌, ◌==◌, if◌then◌else◌, done, Returns, arith,
}
use ultra.Console.{Consoles, eok, ebusy, einval, register_console, unregister_console}
use ultra.Console.Register.{Lists, Registered, member, register_console-Registered}
use ultra.Console.Unregister.{unregister_console-remove, unregister_console_head}
use ultra.Console.Chain.{remove}

-- Console 2, then console 1.
abbrev two_consoles : Consoles
two_consoles = record { consoles = some 2; next = λ con. if con == 2 then some 1 else none }

two_consoles-Lists : Lists two_consoles (2 ∷ 1 ∷ [])
two_consoles-Lists = record {
  chain = (refl, (refl, refl));
  distinct = (((λ e. omega arith), tt), (tt, tt));
}

register_console-Registered_example : Returns (register_console 3 two_consoles 7) (λ r.
    ((member 7 (2 ∷ 1 ∷ []) ≡ true) × (r ≡ (ebusy, two_consoles)))
    ⊎ ((member 7 (2 ∷ 1 ∷ []) ≡ false) × Registered 7 (2 ∷ 1 ∷ []) r))
register_console-Registered_example =
    register_console-Registered 3 two_consoles 7 (2 ∷ 1 ∷ []) two_consoles-Lists (omega arith) tt

unregister_console-remove_example :
    Returns
      (unregister_console 3 two_consoles 1)
      (λ r. (r.0 ≡ (if member 1 (1 ∷ []) then eok else einval)) × Lists r.1 (2 ∷ remove 1 (1 ∷ [])))
unregister_console-remove_example =
    unregister_console-remove 3 two_consoles 1 2 (1 ∷ []) two_consoles-Lists (omega arith)
      (λ e. omega arith)

unregister_console_head_example : unregister_console 3 two_consoles 2 ≡ done (eok, two_consoles)
unregister_console_head_example =
    unregister_console_head 2 two_consoles 2 (1 ∷ []) two_consoles-Lists
