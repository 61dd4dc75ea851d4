-- ===== src/Unwind/Local.antt =====
-- kernel/unwind.c: which bytes the decoding of a value reads, and which it takes.
use ultra.Prelude.{
  ℕ, zero, suc, ◌+◌, ◌*◌, ◌||◌, ◌/◌, ◌%◌, ◌≤◌, ◌<◌, ◌≡◌, inl, inr, refl, ap, ◌∙◌, arith, Bool, true,
  false, Option, none, some, ltb, leb, ◌==◌, if◌then◌else◌, Bool-cases,
}
use ultra.Unwind.Data.{
  Result, ok, error, fault, unfinished, ◌>>=◌, Image, EhData, mapped, load, eh_consume,
  eh_data_init,
}
use Prim.Native.Nat.{bit_or}
use ultra.Unwind.Decode.{
  shift_group, leb128_loop, format_bytes, copy_data, decode_copied, decode_format, scaling_base,
  decode_scaled, decode_value,
}

-- The call does not run out of fuel, and a value that it returns satisfies `P`.
abbrev pub Ends {ℓ} : {A : Type ℓ} → Result A → (A → Type 0) → Type 0
Ends (ok a) P = P a
Ends (error e) P = Unit
Ends fault P = Unit
Ends unfinished P = ⊥

-- Two calls end alike.
abbrev pub Same : {A : Type 0} → Result A → Result A → (A → Type 0) → Type 0
Same r r' P = (r ≡ r') × Ends r P

pub Ends_mono :
    {A : Type 0} (P Q : A → Type 0) (r : Result A) → Ends r P → ((a : A) → P a → Q a) → Ends r Q
Ends_mono P Q (ok a) h f = f a h
Ends_mono P Q (error e) h f = tt
Ends_mono P Q fault h f = tt
Ends_mono P Q unfinished h f = h

-- The rules for a sequence of two calls.
pub Ends-bind :
    {A B : Type 0} (P : A → Type 0) (Q : B → Type 0) (r : Result A) (f : A → Result B)
    → Ends r P
    → ((a : A) → P a → Ends (f a) Q)
    → Ends (r >>= f) Q
Ends-bind P Q (ok a) f h k = k a h
Ends-bind P Q (error e) f h k = tt
Ends-bind P Q fault f h k = tt
Ends-bind P Q unfinished f h k = h

pub Ends-if :
    {A : Type 0} (P : A → Type 0) (b : Bool) (x y : Result A)
    → (b ≡ true → Ends x P)
    → (b ≡ false → Ends y P)
    → Ends (if b then x else y) P
Ends-if P true x y h k = h refl
Ends-if P false x y h k = k refl

pub Same-bind :
    {A B : Type 0} (P : A → Type 0) (Q : B → Type 0) (r r' : Result A) (f f' : A → Result B)
    → Same r r' P
    → ((a : A) → P a → Same (f a) (f' a) Q)
    → Same (r >>= f) (r' >>= f') Q
Same-bind P Q (ok a) r' f f' h k = ((k a h.1).0 ∙ ap (λ t. t >>= f') h.0, (k a h.1).1)
Same-bind P Q (error e) r' f f' h k = (ap (λ t. t >>= f') h.0, tt)
Same-bind P Q fault r' f f' h k = (ap (λ t. t >>= f') h.0, tt)
Same-bind P Q unfinished r' f f' h k = absurd h.1

pub Same_mono :
    {A : Type 0} (P Q : A → Type 0) (r r' : Result A)
    → Same r r' P
    → ((a : A) → P a → Q a)
    → Same r r' Q
Same_mono P Q r r' h f = (h.0, Ends_mono P Q r h.1 f)

pub Same-if :
    {A : Type 0} (P : A → Type 0) (b : Bool) (x x' y y' : Result A)
    → (b ≡ true → Same x x' P)
    → (b ≡ false → Same y y' P)
    → Same (if b then x else y) (if b then x' else y') P
Same-if P true x x' y y' h k = h refl
Same-if P false x x' y y' h k = k refl

-- What is left of the data ends where the data ends.
abbrev pub Within : EhData → EhData → Type 0
Within eh rest =
    (eh.cursor ≤ rest.cursor) × (rest.cursor + rest.bytes_left ≡ eh.cursor + eh.bytes_left)

-- The rest behind so many bytes.
abbrev pub Behind : ℕ → EhData → EhData → Type 0
Behind size eh rest = (rest.cursor ≡ eh.cursor + size) × (rest.bytes_left + size ≡ eh.bytes_left)

pub Within-trans : (a b c : EhData) → Within a b → Within b c → Within a c
Within-trans a b c h k = omega arith

pub mapped-Ends : (o : Option ℕ) → Ends (mapped o) (λ v. Unit)
mapped-Ends none = tt
mapped-Ends (some byte) = tt

shift_group-Ends : (byte num_bits : ℕ) → Ends (shift_group byte num_bits) (λ v. Unit)
unfolding shift_group
shift_group-Ends byte num_bits = elim (Bool-cases (ltb num_bits 32)) [
  | inl e ↦ rw e tt
  | inr e ↦ rw e tt
]

module _ (k : Image) (memory : ℕ → Option ℕ) where
  -- The image with another memory.
  abbrev pub other : Image
  other = record k { memory = memory }

  -- The two memories agree on the data.
  abbrev pub AgreeOn : EhData → Type 0
  AgreeOn eh =
      (address : ℕ)
      → eh.cursor ≤ address
      → address < eh.cursor + eh.bytes_left
      → k.memory address ≡ memory address

  pub AgreeOn-Within : (eh rest : EhData) → Within eh rest → AgreeOn eh → AgreeOn rest
  AgreeOn-Within eh rest w h = λ address p q. h address (omega arith) (omega arith)

  pub load_same :
      (count address : ℕ)
      → ((i : ℕ) → address ≤ i → i < address + count → k.memory i ≡ memory i)
      → Same (load k.memory address count) (load memory address count) (λ v. Unit)
  load_same zero address h = (refl, tt)
  load_same (suc count) address h =
      Same-bind (λ v. Unit) _ (mapped (k.memory address)) (mapped (memory address)) _ _
        (ap mapped (h address (omega arith) (omega arith)), mapped-Ends (k.memory address))
        (λ byte u.
          Same-bind (λ v. Unit) _ (load k.memory (address + 1) count)
            (load memory (address + 1) count) _ _
            (load_same count (address + 1) (λ i p q. h i (omega arith) (omega arith)))
            (λ rest v. (refl, tt)))

  pub eh_consume_same :
      (eh : EhData) (size : ℕ)
      → AgreeOn eh
      → Same (eh_consume k eh size) (eh_consume other eh size) (λ r. Behind size eh r.1)
  unfolding eh_consume
  eh_consume_same eh size h =
      Same-if _ (leb size eh.bytes_left) _ _ _ _
        (λ e.
          Same-bind (λ v. Unit) _ (load k.memory eh.cursor size) (load memory eh.cursor size) _ _
            (load_same size eh.cursor (λ i p q. h i p (ground arith)))
            (λ v u. (refl, ground arith)))
        (λ e. (refl, tt))

  leb128_loop_same :
      (fuel : ℕ) (eh : EhData) (value num_bits : ℕ)
      → AgreeOn eh
      → eh.bytes_left < fuel
      → Same
          (leb128_loop k fuel eh value num_bits)
          (leb128_loop other fuel eh value num_bits)
          (λ r. Within eh r.2)
  unfolding leb128_loop
  leb128_loop_same zero eh value num_bits h f = absurd (omega arith)
  leb128_loop_same (suc fuel) eh value num_bits h f =
      Same-bind (λ r. Behind 1 eh r.1) _ (eh_consume k eh 1) (eh_consume other eh 1) _ _
        (eh_consume_same eh 1 h)
        (λ r b.
          Same-bind (λ v. Unit) _ (shift_group (r.0) num_bits) (shift_group (r.0) num_bits) _ _
            (refl, shift_group-Ends r.0 num_bits)
            (λ group v.
              Same-if _ (r.0 / 128 % 2 == 1) _ _ _ _
                (λ e.
                  Same_mono _ _ _ _
                    (leb128_loop_same fuel r.1 (bit_or value group) ((num_bits + 7) % 256)
                      (AgreeOn-Within eh r.1 (omega arith) h) (omega arith))
                    (λ t w. omega arith))
                (λ e. (refl, omega arith))))

  pub copy_data_same :
      (eh : EhData) (num_bytes : ℕ)
      → AgreeOn eh
      → Same
          (copy_data k eh num_bytes)
          (copy_data other eh num_bytes)
          (λ r. Behind num_bytes eh r.1)
  unfolding copy_data
  copy_data_same eh size h =
      Same-if _ (ltb eh.bytes_left size) _ _ _ _ (λ e. (refl, tt))
        (λ e.
          Same-bind (λ v. Unit) _ (load k.memory eh.cursor size) (load memory eh.cursor size) _ _
            (load_same size eh.cursor (λ i p q. h i p (ground arith)))
            (λ v u. (refl, ground arith)))

  decode_copied_same :
      (eh : EhData) (format : ℕ) (o : Option ℕ)
      → AgreeOn eh
      → Same (decode_copied k eh format o) (decode_copied other eh format o) (λ r. Within eh r.1)
  unfolding decode_copied
  decode_copied_same eh format none h = (refl, tt)
  decode_copied_same eh format (some n) h =
      Same-bind (λ r. Behind n eh r.1) _ (copy_data k eh n) (copy_data other eh n) _ _
        (copy_data_same eh n h) (λ r b. (refl, omega arith))

  decode_format_same :
      (eh : EhData) (format : ℕ)
      → AgreeOn eh
      → Same (decode_format k eh format) (decode_format other eh format) (λ r. Within eh r.1)
  unfolding decode_format
  decode_format_same eh format h =
      Same-if _ (format == 1 || format == 9) _ _ _ _
        (λ e.
          Same-bind (λ r. Within eh r.2) _ (leb128_loop k (eh.bytes_left + 1) eh 0 0)
            (leb128_loop other (eh.bytes_left + 1) eh 0 0) _ _
            (leb128_loop_same (eh.bytes_left + 1) eh 0 0 h (omega arith)) (λ r w. (refl, w)))
        (λ e. decode_copied_same eh format (format_bytes format) h)

  decode_scaled_same :
      (eh : EhData) (format : ℕ) (base : Option ℕ)
      → AgreeOn eh
      → Same
          (decode_scaled k eh format base)
          (decode_scaled other eh format base)
          (λ r. Within eh r.1)
  unfolding decode_scaled
  decode_scaled_same eh format none h = (refl, tt)
  decode_scaled_same eh format (some base) h =
      Same-bind (λ r. Within eh r.1) _ (decode_format k eh format) (decode_format other eh format) _
        _ (decode_format_same eh format h) (λ r w. (refl, w))

  pub decode_value_same :
      (eh : EhData) (encoding : ℕ)
      → AgreeOn eh
      → Same (decode_value k eh encoding) (decode_value other eh encoding) (λ r. Within eh r.1)
  unfolding decode_value scaling_base
  decode_value_same eh encoding h =
      decode_scaled_same eh (encoding % 16) (scaling_base k eh (encoding / 16 % 16 * 16)) h

module _ (k : Image) where
  pub load-Ends : (address count : ℕ) → Ends (load k.memory address count) (λ v. Unit)
  load-Ends address count = (load_same k k.memory count address (λ i p q. refl)).1

  pub eh_consume-Ends :
      (eh : EhData) (size : ℕ) → Ends (eh_consume k eh size) (λ r. Behind size eh r.1)
  eh_consume-Ends eh size = (eh_consume_same k k.memory eh size (λ a p q. refl)).1

  pub decode_value-Ends :
      (eh : EhData) (encoding : ℕ) → Ends (decode_value k eh encoding) (λ r. Within eh r.1)
  decode_value-Ends eh encoding = (decode_value_same k k.memory eh encoding (λ a p q. refl)).1

  pub eh_data_init-Ends : (cursor : ℕ) → Ends (eh_data_init k cursor) (λ eh. Unit)
  unfolding eh_data_init
  eh_data_init-Ends cursor =
      Ends-bind (λ v. Unit) (λ eh. Unit) (load k.memory cursor 4) _ (load-Ends cursor 4)
        (λ v u.
          Ends-if (λ eh. Unit) (v == 0xFFFFFFFF) _ _
            (λ e.
              Ends-bind (λ v. Unit) (λ eh. Unit) (load k.memory (cursor + 4) 8) _
                (load-Ends (cursor + 4) 8) (λ v u. tt))
            (λ e. tt))
