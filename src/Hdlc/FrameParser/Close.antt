-- ===== src/Hdlc/FrameParser/Close.antt =====
-- FrameParser.cpp: the parser's invariant, and what RemoveEscapeCharacters does at a closing delimiter.
use hdlcd.Base.{
  ◌≤◌, ltb, leb, not, ◌||◌, ◌>>=◌, get_or, ℕ, ◌+◌, ◌-◌, ◌<◌, ◌≡◌, refl, sym, ap, ◌∙◌, inl, inr,
  Bool, true, false, List, [], ◌∷◌, ◌++◌, append_assoc, some, arith, ◌==◌, if◌then◌else◌,
  Bool-cases, length, length-append, get_or, take, leb,
}
use hdlcd.Hdlc.Frame.{HdlcFrame}
use hdlcd.Hdlc.FrameParser.{
  Parser, reset, unescape, max_length, read_frame, deserialize_header, deserialize_frame, fcs_fails,
  finish_frame, back, resize_one, finish_with, remove_escape_characters,
}
use hdlcd.Hdlc.FrameParser.Window.{
  NoFlag, take-length-suc, last_byte, get_or-last_byte, get_or-final, unescape_total, unescape_head,
}

-- The bytes of a frame between its two delimiters.
abbrev pub window : List ℕ → List ℕ
window body = 0x7e ∷ (body ++ 0x7e ∷ [])

-- The buffer starts with the delimiter, holds no other one and is at most twice the maximum length;
-- it holds nothing else until the start of a frame was seen.
pub record IsOpen (p : Parser) : Type 0 where
  pub body : List ℕ
  pub framed : p.buffer ≡ 0x7e ∷ body
  pub no_flag : NoFlag body
  pub fits : length body < 2048
  pub idle : p.start_token_seen ≡ false → body ≡ []

pub reset-IsOpen : IsOpen reset
reset-IsOpen = record {
  body = [];
  framed = refl;
  no_flag = tt;
  fits = omega arith;
  idle = λ _. refl;
}

length-window : (body : List ℕ) → length (window body) ≡ length body + 2
length-window body = omega (arith, length-append body (0x7e ∷ []))

at_index : (body : List ℕ) (m n : ℕ) → m ≡ n → get_or (window body) m 0 ≡ get_or (window body) n 0
at_index body m n e = ap (λ t. get_or (window body) t 0) e

closed : (body : List ℕ) → (back (window body) == 0x7e) ≡ true
closed body =
    ap (λ t. t == 0x7e)
      (at_index body (length (window body) - 1) (length body + 1)
          (omega (arith, length-window body))
        ∙ get_or-final 0x7e 0x7e body)

long_enough : (body : List ℕ) → leb 2 (length (window body)) ≡ true
long_enough body = ground (arith, length-window body)

empty_iff : (body : List ℕ) → (length (window body) == 2) ≡ (length body == 0)
empty_iff body = ground (arith, length-window body)

last_iff :
    (body : List ℕ)
    → (get_or (window body) (length (window body) - 2) 0 == 0x7d) ≡ (last_byte 0x7e body == 0x7d)
last_iff body =
    ap (λ t. t == 0x7d)
      (at_index body (length (window body) - 2) (length body) (omega (arith, length-window body))
        ∙ get_or-last_byte 0x7e 0x7e body)

-- The buffer with a chunk that ends in the delimiter is a window.
pub window-append :
    (p : Parser) (o : IsOpen p) (run rest : List ℕ)
    → p.buffer ++ take (length run + 1) (run ++ 0x7e ∷ rest) ≡ window (o.body ++ run)
window-append p o run rest =
    ap (λ t. p.buffer ++ t) (take-length-suc 0x7e run rest)
    ∙ ap (λ t. t ++ (run ++ 0x7e ∷ [])) o.framed
    ∙ ap (λ t. 0x7e ∷ t) (sym (append_assoc o.body run (0x7e ∷ [])))

-- With six bytes nothing is read outside the buffer.
pub deserialize_frame-long :
    (buffer : List ℕ) → 6 ≤ length buffer → deserialize_frame buffer ≡ some (read_frame buffer)
unfolding deserialize_frame
deserialize_frame-long buffer long =
    let header = (deserialize_header (get_or buffer 1 0) (get_or buffer 2 0)).1 in
    rw (at_least 3 (omega (arith, long)), at_least 6 long, or_true (not header)) refl
  where
    at_least : (n : ℕ) → n ≤ length buffer → leb n (length buffer) ≡ true
    at_least n le = ground (arith, le)

    or_true : (b : Bool) → (b || true) ≡ true
    or_true b = ground arith

module _ {S : Type 0} (interpret : List ℕ → HdlcFrame → Bool → S → S) where
  -- On a window the assertions hold and the tests read the bytes that they mean.
  pub remove_window :
      (body : List ℕ) (s : S)
      → remove_escape_characters interpret (window body) true s ≡ (
          if length body == 0
          then some (false, window body, s)
          else if last_byte 0x7e body == 0x7d
          then finish_with interpret s (window body, true)
          else unescape (window body) >>= finish_with interpret s)
  unfolding remove_escape_characters
  remove_window body s = rw (closed body, long_enough body, empty_iff body, last_iff body)

  -- What a closing delimiter leads to: a verdict, a buffer that still starts with the delimiter,
  -- and the owner's next state.
  pub record Closes (body : List ℕ) (s : S) : Type 0 where
    pub valid : Bool
    pub left : List ℕ
    pub owner : S
    pub returns :
        remove_escape_characters interpret (window body) true s ≡ some (valid, left, owner)
    pub trimmed : resize_one left ≡ 0x7e ∷ []

  finish_frame_total :
      (buffer : List ℕ) (invalid : Bool) (s : S)
      → (valid : Bool) × (owner : S) × (finish_frame interpret buffer invalid s
          ≡ some (valid, owner))
  unfolding finish_frame
  finish_frame_total buffer invalid s =
      elim (Bool-cases (ltb (length buffer) 6 || ltb max_length (length buffer))) [
        | inl junk ↦ (false, s, rw junk refl)
        | inr fine ↦
            let read = deserialize_frame-long buffer (ground (arith, fine)) in
            let bad = if invalid then true else fcs_fails buffer in
            (not bad, interpret buffer (read_frame buffer) bad s, rw (fine, read) refl)
      ]

  Closes-with :
      (body : List ℕ) (s : S) (buffer tail : List ℕ) (invalid : Bool)
      → buffer ≡ 0x7e ∷ tail
      → remove_escape_characters interpret (window body) true s
        ≡ finish_with interpret s (buffer, invalid)
      → Closes body s
  Closes-with body s buffer tail invalid head e =
      let (valid, owner, done) = finish_frame_total buffer invalid s in
      record {
        valid = valid;
        left = buffer;
        owner = owner;
        returns = e ∙ rw done refl;
        trimmed = ap resize_one head;
      }

  -- A window is always read to its end.
  pub remove_total : (body : List ℕ) (s : S) → Closes body s
  remove_total body s = elim (Bool-cases (length body == 0)) [
    | inl short ↦ record {
      valid = false;
      left = window body;
      owner = s;
      returns = remove_window body s ∙ rw short;
      trimmed = refl;
    }
    | inr long ↦ elim (Bool-cases (last_byte 0x7e body == 0x7d)) [
      | inl cut ↦
          Closes-with body s (window body) _ true refl (remove_window body s ∙ rw (long, cut))
      | inr whole ↦
          let (out, invalid, e) = unescape_total 0x7e body (ground arith) in
          let (tail, head) = unescape_head 0x7e (body ++ 0x7e ∷ []) (λ h. absurd (omega arith)) e in
          Closes-with body s out tail invalid head (remove_window body s ∙ rw (long, whole, e))
    ]
  ]
