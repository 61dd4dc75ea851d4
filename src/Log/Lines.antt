-- ===== src/Log/Lines.antt =====
-- kernel/log.c: what the consoles get of a message.
use ultra.Prelude.{
  ℕ, zero, suc, ◌+◌, ◌-◌, ◌%◌, ◌^◌, ◌≤◌, ◌<◌, ◌≡◌, refl, sym, ap, ap₂, ◌∙◌, arith, Bool, some, List,
  [], ◌∷◌, ◌++◌, length, length-take, take, drop, min, ◌==◌, if◌then◌else◌, le→leb_false, done,
  Returns, Returns-bind,
}
use ultra.Console.{Consoles}
use ultra.Console.Register.{Lists, console_write-Lists}
use ultra.Format.Buffer.{shown}
use ultra.Format.Print.{vscnprintf}
use ultra.Format.Parse.{HeadNot}
use ultra.Format.Prints.{
  Directive, chars, integer, NonZero, IsFormat, Prints, room_of, format_text, format_args,
}
use ultra.Format.Directives.{size_length, unsigned_u}
use ultra.Format.Output.{ended, Outputs, vscnprintf-Outputs}
use ultra.Symbols.{Tables, found, symbol_lookup_by_address}
use ultra.Log.{
  extract_msg_level, log_level_default, Log, write_log, vprint, print, DumpState, print_frame,
  do_dump_frame,
}

length-shown : (cap : ℕ) (mem out : List ℕ) → length (shown cap mem out) ≡ length mem
unfolding shown
length-shown zero mem out = refl
length-shown (suc cap) [] out = refl
length-shown (suc cap) (m ∷ mem) [] = refl
length-shown (suc cap) (m ∷ mem) (o ∷ out) = ap suc (length-shown cap mem out)

length-ended : (cap : ℕ) (mem out : List ℕ) → length (ended cap mem out) ≡ length mem
length-ended zero mem out = refl
length-ended (suc cap) mem out = length-shown (suc cap) mem (take cap out ++ (0 ∷ []))

-- The start of what is shown.
take-shown :
    (x y mem : List ℕ) (cap : ℕ)
    → length x ≤ cap
    → cap ≤ length mem
    → take (length x) (shown cap mem (x ++ y)) ≡ x
unfolding shown
take-shown [] y mem cap h k = refl
take-shown (c ∷ x) y mem zero h k = absurd (omega arith)
take-shown (c ∷ x) y [] (suc cap) h k = absurd (omega arith)
take-shown (c ∷ x) y (m ∷ mem) (suc cap) h k =
    ap (λ l. c ∷ l) (take-shown x y mem cap (omega arith) (omega arith))

take-ended :
    (cap : ℕ) (mem out : List ℕ)
    → suc cap ≤ length mem
    → take (min (length out) cap) (ended (suc cap) mem out) ≡ take cap out
take-ended cap mem out h =
    let size : min (length out) cap ≡ length (take cap out) = omega (arith, length-take cap out) in
    rw size
      (take-shown (take cap out) (0 ∷ []) mem (suc cap) (omega (arith, length-take cap out)) h)

-- A level in front of a text, or none where the text does not start as one.
abbrev pub IsPrefix : List ℕ → List ℕ → Type 0
IsPrefix [] text = HeadNot (λ c. c == 1) text
IsPrefix (c ∷ []) text = ⊥
IsPrefix (c ∷ d ∷ []) text = c ≡ 1
IsPrefix (c ∷ d ∷ e ∷ prefix) text = ⊥

skip_prefix :
    (prefix text : List ℕ) (level : ℕ)
    → IsPrefix prefix text
    → drop (extract_msg_level (prefix ++ text) level).0 (prefix ++ text) ≡ text
unfolding extract_msg_level
skip_prefix [] [] level h = refl
skip_prefix [] (c ∷ []) level h = rw h refl
skip_prefix [] (c ∷ d ∷ text) level h = rw h refl
skip_prefix (c ∷ []) text level h = absurd h
skip_prefix (c ∷ d ∷ []) text level h = rw h refl
skip_prefix (c ∷ d ∷ e ∷ prefix) text level h = absurd h

-- The consoles got the start of the output, and the buffer for the next message is as large.
abbrev pub Logged : Log → List ℕ → List (List ℕ × Directive) → List ℕ → Log → Type 0
Logged log cons ds last log' =
    (out : List ℕ) × Prints ds last out
    × (length log'.log_buf ≡ 256)
    × (log'.writes ≡ (cons, take 255 out) ∷ log.writes)

-- The line of a frame: four spaces and "#", its depth, " in ", the symbol, "+" and the offset.
abbrev pub frame_line : ℕ → List ℕ → ℕ → List (List ℕ × Directive)
frame_line depth sym offset =
    (32 ∷ 32 ∷ 32 ∷ 32 ∷ 35 ∷ [], integer [] [] 0 size_length unsigned_u depth)
    ∷ (32 ∷ 105 ∷ 110 ∷ 32 ∷ [], chars sym)
    ∷ (43 ∷ [], integer [] [] 0 size_length unsigned_u offset)
    ∷ []

module _ (fuel : ℕ) (s : Consoles) (cons : List ℕ) (v : Lists s cons) (f : length cons < fuel) where
  write_log_lem :
      (log : Log) (n : ℕ)
      → n < 2 ^ 31
      → write_log fuel s log n
        ≡ done (record log { writes = (cons, take n log.log_buf) ∷ log.writes })
  unfolding write_log
  write_log_lem log n h = rw (le→leb_false n (2 ^ 31) h, console_write-Lists fuel s cons v f) refl

  -- A message with a level or without one, whose text is a format with its arguments: each console, from the
  -- one that was registered last on, gets the output, of which the first 255 bytes at most are printed. The
  -- buffer of the log has 256 bytes, and the room for the output is below 2^31.
  pub print-Logged :
      (ds : List (List ℕ × Directive)) (prefix last : List ℕ) (log : Log)
      → IsFormat ds last
      → IsPrefix prefix (format_text ds last)
      → room_of ds last < 2 ^ 31
      → length log.log_buf ≡ 256
      → Returns
          (print fuel s log (some (prefix ++ format_text ds last)) (format_args ds))
          (Logged log cons ds last)
  unfolding print vprint
  print-Logged ds prefix last log i p b l =
      rw (skip_prefix prefix (format_text ds last) log_level_default p) (
        Returns-bind (Outputs 256 log.log_buf ds last (λ n. min n 255)) (Logged log cons ds last)
          (vscnprintf log.log_buf 256 (format_text ds last) (format_args ds)) _
          (vscnprintf-Outputs ds last log.log_buf 256 i (omega arith) b (omega arith))
          (λ r (out, q, n, e).
            rw (write_log_lem (record log { log_buf = r.1 }) r.0 (omega (arith, n))) (
              out,
              q,
              ap length e ∙ length-ended 256 log.log_buf out ∙ l,
              ap (λ t. (cons, t) ∷ log.writes)
                  (ap₂ take n e ∙ take-ended 255 log.log_buf out (omega arith)),
            )))

  -- Where the address of a frame has a symbol, one less than the address if it stands behind a call, the consoles
  -- get the line of the frame, with the name and the offset, and the next frame is one deeper. The name has
  -- no 0 and fewer than 2^30 characters.
  pub do_dump_frame-Logged :
      (t : Tables) (state : DumpState) (addr offset : ℕ) (after_call : Bool) (sym : List ℕ)
      → symbol_lookup_by_address t (if after_call then (addr + (2 ^ 64 - 1)) % 2 ^ 64 else addr)
        ≡ done (found sym offset)
      → NonZero sym
      → length sym < 2 ^ 30
      → length (state.log.log_buf) ≡ 256
      → Returns (do_dump_frame t fuel s state addr after_call) (λ state'.
        (state'.depth ≡ (state.depth + 1) % 2 ^ 64)
        × Logged (state.log) cons (frame_line state.depth sym offset) (10 ∷ []) (state'.log))
  unfolding do_dump_frame print_frame
  do_dump_frame-Logged t state addr offset after_call sym e z h l = rw e (
      Returns-bind (Logged (state.log) cons (frame_line state.depth sym offset) (10 ∷ [])) _ _ _
        (print-Logged (frame_line state.depth sym offset) [] (10 ∷ []) (state.log)
          (
            (refl, (refl, (refl, (refl, (refl, tt))))),
            (tt, refl),
            ((refl, (refl, (refl, (refl, tt)))), z, ((refl, tt), (tt, refl), (refl, tt))),
          )
          refl (omega arith) l)
        (λ log q. (refl, q)))
