-- ===== src/Console.antt =====
-- kernel/console.c: the list of consoles. A console is a number; `next` gives the field `next` of each
-- console, and the model changes it as the code does, those of consoles outside the list too. The
-- loops are on fuel.
pub mod Chain
pub mod Register
pub mod Unregister
mod Tests
use ultra.Prelude.{
  ℕ, zero, suc, Bool, true, false, Option, none, some, List, [], ◌∷◌, ◌==◌, if◌then◌else◌, Outcome,
  done, unfinished, ◌>>=◌,
}

pub record Consoles : Type 0 where
  pub consoles : Option ℕ
  pub next : ℕ → Option ℕ

-- kernel/include/common/error.h
abbrev pub eok : ℕ
eok = 0

abbrev pub ebusy : ℕ
ebusy = 10

abbrev pub einval : ℕ
einval = 28

-- `con->next = value`
abbrev pub store : (ℕ → Option ℕ) → ℕ → Option ℕ → ℕ → Option ℕ
store next con value k = if k == con then value else next k

unfoldable pub registered_loop : ℕ → Consoles → ℕ → Option ℕ → Outcome Bool
registered_loop zero s con this_con = unfinished
registered_loop (suc fuel) s con none = done false
registered_loop (suc fuel) s con (some this_con) =
    let later = registered_loop fuel s con (s.next this_con) in
    if this_con == con then done true else later

unfoldable pub console_registered : ℕ → Consoles → ℕ → Outcome Bool
unfolding registered_loop
console_registered fuel s con = registered_loop fuel s con s.consoles

abbrev pub pushed : Consoles → ℕ → Consoles
pushed s con = record { consoles = some con; next = store s.next con s.consoles }

unfoldable pub register_console : ℕ → Consoles → ℕ → Outcome (ℕ × Consoles)
register_console fuel s con = elim s.consoles [
  | none ↦ done (eok, record s { consoles = some con })
  | some head ↦ console_registered fuel s con >>= λ registered.
      if registered then done (ebusy, s) else done (eok, pushed s con)
]

-- The code behind `if (cur_con != con)`
unfoldable pub unlink : Consoles → Option ℕ → ℕ → ℕ × Consoles
unlink s none cur_con = (eok, s)
unlink s (some prev_con) cur_con = (eok, record s { next = store s.next prev_con (s.next cur_con) })

unfoldable pub unregister_loop : ℕ → Consoles → ℕ → Option ℕ → Option ℕ → Outcome (ℕ × Consoles)
unfolding unlink
unregister_loop zero s con prev_con cur_con = unfinished
unregister_loop (suc fuel) s con prev_con none = done (einval, s)
unregister_loop (suc fuel) s con prev_con (some cur_con) =
    let later = unregister_loop fuel s con (some cur_con) (s.next cur_con) in
    if cur_con == con then done (unlink s prev_con cur_con) else later

unfoldable pub unregister_console : ℕ → Consoles → ℕ → Outcome (ℕ × Consoles)
unregister_console fuel s con = unregister_loop fuel s con none s.consoles

-- The consoles whose `write` is called, in order.
unfoldable pub write_loop : ℕ → Consoles → Option ℕ → Outcome (List ℕ)
write_loop zero s con = unfinished
write_loop (suc fuel) s none = done []
write_loop (suc fuel) s (some con) = write_loop fuel s (s.next con) >>= λ rest. done (con ∷ rest)

unfoldable pub console_write : ℕ → Consoles → Outcome (List ℕ)
console_write fuel s = write_loop fuel s s.consoles
