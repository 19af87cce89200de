-- ===== src/Hdlc/FrameParser/Owner.antt =====
-- FrameParser.cpp: what the owner of a parser can rely on.
use mathlib.Core.Option
use hdlcd.Base.{
  ℕ, zero, suc, ◌+◌, ◌-◌, ◌*◌, ◌/◌, ◌^◌, ◌<◌, ◌≡◌, subst, Bool, true, false, not, ◌||◌, List, [],
  ◌∷◌, ◌++◌, Option, none, some, inl, inr, arith, ◌==◌, ltb, leb, if◌then◌else◌, length, get_or,
  take, drop, guard, bit_and, Option-cases, ◌>>=◌,
}
use hdlcd.Base.Bits.{bit_and-le}
use hdlcd.Hdlc.Frame.{HdlcFrame}
use hdlcd.Hdlc.FrameParser.{
  Parser, max_length, memchr, back, unescape, deserialize_header, read_frame, deserialize_frame,
  fcs_fails, finish_frame, finish_with, remove_escape_characters, add_chunk, consume,
  add_received_raw_bytes,
}

-- The sequence numbers of a frame have three bits.
pub record IsNumbered (f : HdlcFrame) : Type 0 where
  pub s_fits : f.s_seq < 8
  pub r_fits : f.r_seq < 8

masked_s : (c : ℕ) → bit_and c 0x0e / 2 ^ 1 < 8
masked_s c = omega (arith, bit_and-le c 0x0e)

masked_r : (c : ℕ) → bit_and c 0xe0 / 2 ^ 5 < 8
masked_r c = omega (arith, bit_and-le c 0xe0)

deserialize_header-IsNumbered : (address c : ℕ) → IsNumbered (deserialize_header address c).0
unfolding deserialize_header
deserialize_header-IsNumbered address c = record {
  s_fits = ground (arith, masked_s c);
  r_fits = ground (arith, masked_r c);
}

read_frame-IsNumbered : (buffer : List ℕ) → IsNumbered (read_frame buffer)
unfolding read_frame
read_frame-IsNumbered buffer =
    let n = deserialize_header-IsNumbered (get_or buffer 1 0) (get_or buffer 2 0) in
    record { s_fits = ground (arith, n.s_fits); r_fits = ground (arith, n.r_fits) }

-- A result, if there is one, has the property.
abbrev pub Holds {ℓ κ} : {A : Type ℓ} → (A → Type κ) → Option A → Type κ
Holds P none = Unit
Holds P (some a) = P a

Holds-if {ℓ κ} :
    {A : Type ℓ} (P : A → Type κ) (b : Bool) (x y : Option A)
    → Holds P x
    → Holds P y
    → Holds P (if b then x else y)
Holds-if P true x y hx hy = hx
Holds-if P false x y hx hy = hy

Holds-map {ℓ κ μ ν} :
    {A : Type ℓ} {B : Type κ} (P : A → Type μ) (Q : B → Type ν) (f : A → B) (o : Option A)
    → Holds P o
    → ((a : A) → P a → Q (f a))
    → Holds Q (Option.map f o)
Holds-map P Q f none x h = tt
Holds-map P Q f (some a) x h = h a x

Holds-bind {ℓ κ μ ν} :
    {A : Type ℓ} {B : Type κ} (P : A → Type μ) (Q : B → Type ν) (f : A → Option B) (o : Option A)
    → Holds P o
    → ((a : A) → P a → Holds Q (f a))
    → Holds Q (o >>= f)
Holds-bind P Q f none x h = tt
Holds-bind P Q f (some a) x h = h a x

Holds-all {ℓ} : {A : Type ℓ} (o : Option A) → Holds (λ _. Unit {0}) o
Holds-all none = tt
Holds-all (some a) = tt

Holds-guard {ℓ κ} :
    {A : Type ℓ} (P : A → Type κ) (b : Bool) (k : Option A)
    → Holds P k
    → Holds P (guard b >>= (λ _. k))
Holds-guard P true k h = h
Holds-guard P false k h = tt

-- Whatever the bytes are, a frame that the parser reads from them has sequence numbers below 8.
pub deserialize_frame-IsNumbered : (buffer : List ℕ) → Holds IsNumbered (deserialize_frame buffer)
unfolding deserialize_frame
deserialize_frame-IsNumbered buffer = Holds-guard IsNumbered (leb 3 (length buffer)) _ (
    Holds-guard IsNumbered
      (not (deserialize_header (get_or buffer 1 0) (get_or buffer 2 0)).1 || leb 6 (length buffer))
      (some (read_frame buffer)) (read_frame-IsNumbered buffer))

module _ {S : Type 0} (interpret : List ℕ → HdlcFrame → Bool → S → S) (P : S → Type 0)
    (keeps : (bytes : List ℕ) (f : HdlcFrame) (bad : Bool) (s : S)
      → IsNumbered f
      → P s
      → P (interpret bytes f bad s)) where
  finish_frame-keeps :
      (buffer : List ℕ) (invalid : Bool) (s : S)
      → P s
      → Holds (λ r. P r.1) (finish_frame interpret buffer invalid s)
  unfolding finish_frame
  finish_frame-keeps buffer invalid s h =
      let bad = if invalid then true else fcs_fails buffer in
      Holds-if (λ r. P r.1) (ltb (length buffer) 6 || ltb max_length (length buffer)) _ _ h
        (Holds-map IsNumbered (λ r. P r.1) _ (deserialize_frame buffer)
          (deserialize_frame-IsNumbered buffer) (λ f n. keeps buffer f bad s n h))

  finish_with-keeps :
      (buffer : List ℕ) (invalid : Bool) (s : S)
      → P s
      → Holds (λ r. P r.2) (finish_with interpret s (buffer, invalid))
  finish_with-keeps buffer invalid s h =
      Holds-map (λ (r : Bool × S). P r.1) (λ (r : Bool × List ℕ × S). P r.2) _
        (finish_frame interpret buffer invalid s) (finish_frame-keeps buffer invalid s h) (λ r k. k)

  remove-keeps :
      (buffer : List ℕ) (seen : Bool) (s : S)
      → P s
      → Holds (λ r. P r.2) (remove_escape_characters interpret buffer seen s)
  unfolding remove_escape_characters
  remove-keeps buffer seen s h =
      let Q = λ (r : Bool × List ℕ × S). P r.2 in
      Holds-guard Q (get_or buffer 0 0 == 0x7e) _ (
        Holds-guard Q (back buffer == 0x7e) _ (
          Holds-guard Q (leb 2 (length buffer)) _ (
            Holds-guard Q seen _ (
              Holds-if Q (length buffer == 2) _ _ h (
                Holds-if Q (get_or buffer (length buffer - 2) 0 == 0x7d) _ _
                  (finish_with-keeps buffer true s h)
                  (Holds-bind (λ _. Unit {0}) Q (finish_with interpret s) (unescape buffer)
                    (Holds-all (unescape buffer)) (λ a _. finish_with-keeps a.0 a.1 s h)))))))

  add_chunk-keeps :
      (p : Parser) (s : S) (bytes : List ℕ)
      → P s
      → Holds (λ r. P r.2) (add_chunk interpret p s bytes)
  unfolding add_chunk
  add_chunk-keeps p s bytes h = elim (Option-cases (memchr bytes)) [
    | inl e ↦
        rw (e, add_chunk)
          (Holds-if Q (not p.start_token_seen) _ _ h
            (Holds-if Q (ltb (2 * max_length) (length p.buffer + length bytes)) _ _ h h))
    | inr (index, e) ↦
        rw (e, add_chunk)
          (Holds-if Q (not p.start_token_seen) _ _ h (
            Holds-if Q (leb (length p.buffer + (index + 1)) (2 * max_length)) _ _
              (Holds-map (λ (r : Bool × List ℕ × S). P r.2) Q _
                (remove_escape_characters interpret (p.buffer ++ take (index + 1) bytes)
                  p.start_token_seen s)
                (remove-keeps (p.buffer ++ take (index + 1) bytes) p.start_token_seen s h)
                (λ r k. k))
              h))
  ]
    where
      Q : ℕ × Parser × S → Type 0
      Q r = P r.2

  consume-keeps :
      (fuel : ℕ) (p : Parser) (s : S) (bytes : List ℕ)
      → P s
      → Holds (λ r. P r.1) (consume interpret fuel p s bytes)
  unfolding consume
  consume-keeps fuel p s [] h = h
  consume-keeps zero p s (x ∷ xs) h = tt
  consume-keeps (suc fuel) p s (x ∷ xs) h =
      Holds-bind (λ (r : ℕ × Parser × S). P r.2) (λ (r : Parser × S). P r.1) _
        (add_chunk interpret p s (x ∷ xs)) (add_chunk-keeps p s (x ∷ xs) h)
        (λ r k. consume-keeps fuel r.1 r.2 (drop r.0 (x ∷ xs)) k)

  -- What every call of InterpretDeserializedFrame with numbered frames keeps, reading keeps.
  pub add_received_raw_bytes-keeps :
      (p : Parser) (s : S) (bytes : List ℕ) {p' : Parser} {s' : S}
      → add_received_raw_bytes interpret p s bytes ≡ some (p', s')
      → P s
      → P s'
  unfolding add_received_raw_bytes
  add_received_raw_bytes-keeps p s bytes e h =
      subst (Holds (λ (r : Parser × S). P r.1)) e (consume-keeps (length bytes) p s bytes h)
