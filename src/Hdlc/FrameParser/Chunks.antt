-- ===== src/Hdlc/FrameParser/Chunks.antt =====
-- FrameParser.cpp: the bytes of a stream reach the parser in reads of any size.
use hdlcd.Base.{
  ℕ, ◌+◌, ◌≤◌, ◌<◌, ◌≡◌, ◌≢◌, refl, ap, ◌∙◌, inl, inr, Bool, true, false, not, List, [], ◌∷◌, ◌++◌,
  Option, some, arith, ◌==◌, ==_iff, if◌then◌else◌, Bool-cases, length, length-append, All-append,
  ◌>>=◌,
}
use hdlcd.Hdlc.Frame.{HdlcFrame}
use hdlcd.Hdlc.FrameParser.{Parser, resize_one, remove_escape_characters, add_received_raw_bytes}
use hdlcd.Hdlc.FrameParser.Close.{IsOpen, remove_total}
use hdlcd.Hdlc.FrameParser.Bytewise.{
  Fits, accept_byte, accept_bytes, accept_bytes-append, state, add_received_raw_bytes_bytewise,
}

-- The bytes of the reads.
abbrev pub joined : List (List ℕ) → List ℕ
joined [] = []
joined (chunk ∷ chunks) = chunk ++ joined chunks

Fits-mono : (n m : ℕ) (xs : List ℕ) → n ≤ m → Fits m xs → Fits n xs
Fits-mono n m [] h f = omega arith
Fits-mono n m (x ∷ xs) h f = (
  omega (arith, f.0),
  Fits-mono (if x == 0x7e then 1 else n + 1) (if x == 0x7e then 1 else m + 1) xs (ground arith) f.1,
)

Fits-start : (n : ℕ) (xs : List ℕ) → Fits n xs → n ≤ 2048
Fits-start n [] f = f
Fits-start n (x ∷ xs) f = omega (arith, f.0)

Fits-append_left : (n : ℕ) (xs ys : List ℕ) → Fits n (xs ++ ys) → Fits n xs
Fits-append_left n [] ys f = Fits-start n ys f
Fits-append_left n (x ∷ xs) ys f =
    (f.0, Fits-append_left (if x == 0x7e then 1 else n + 1) xs ys f.1)

module _ {S : Type 0} (interpret : List ℕ → HdlcFrame → Bool → S → S) where
  -- Reads one after the other.
  pub feed : Parser → S → List (List ℕ) → Option (Parser × S)
  feed p s [] = some (p, s)
  feed p s (chunk ∷ chunks) =
      add_received_raw_bytes interpret p s chunk >>= λ (p', s'). feed p' s' chunks

  -- A byte of the automaton, where the buffer has room for it.
  record Accepts (p : Parser) (s : S) (x : ℕ) : Type 0 where
    next : Parser
    owner : S
    returns : accept_byte interpret p s x ≡ some (next, owner)
    open_next : IsOpen next
    smaller : length next.buffer ≤ (if x == 0x7e then 1 else length p.buffer + 1)

  Accepts-plain :
      (b : List ℕ) (seen : Bool) (s : S) (x : ℕ)
      → IsOpen (state b seen)
      → length b < 2048
      → (x == 0x7e) ≡ false
      → Accepts (state b seen) s x
  Accepts-plain b false s x o room ne = record {
    next = state b false;
    owner = s;
    returns = unfold accept_byte in rw ne;
    open_next = o;
    smaller = rw ne (omega arith);
  }
  Accepts-plain b true s x o room ne = record {
    next = state (b ++ x ∷ []) true;
    owner = s;
    returns = unfold accept_byte in rw ne;
    open_next = record {
      body = o.body ++ x ∷ [];
      framed = ap (λ t. t ++ x ∷ []) o.framed;
      no_flag = All-append (λ y. y ≢ 0x7e) o.body (x ∷ []) o.no_flag (ground arith, tt);
      fits = omega (arith, length-append o.body (x ∷ []), ap length o.framed);
      idle = λ e. absurd (cc);
    };
    smaller = rw ne (omega (arith, length-append b (x ∷ [])));
  }

  Accepts-flag :
      (b : List ℕ) (seen : Bool) (s : S) → IsOpen (state b seen) → Accepts (state b seen) s 0x7e
  Accepts-flag b false s o = record {
    next = state b true;
    owner = s;
    returns = unfold accept_byte in refl;
    open_next = record {
      body = o.body;
      framed = o.framed;
      no_flag = o.no_flag;
      fits = o.fits;
      idle = λ e. absurd (cc);
    };
    smaller = omega (arith, ap length (o.framed ∙ ap (λ t. 0x7e ∷ t) (o.idle refl)));
  }
  Accepts-flag b true s o =
      let c = remove_total interpret o.body s in
      let closing : remove_escape_characters interpret (b ++ 0x7e ∷ []) true s
          ≡ some (c.valid, c.left, c.owner) =
        ap (λ t. remove_escape_characters interpret (t ++ 0x7e ∷ []) true s) o.framed ∙ c.returns in
      record {
        next = state (resize_one c.left) (not c.valid);
        owner = c.owner;
        returns = unfold accept_byte in rw closing;
        open_next = record {
          body = [];
          framed = c.trimmed;
          no_flag = tt;
          fits = omega arith;
          idle = λ e. refl;
        };
        smaller = omega (arith, ap length c.trimmed);
      }

  accepts : (p : Parser) (s : S) (x : ℕ) → IsOpen p → length p.buffer < 2048 → Accepts p s x
  accepts p s x o room = elim (Bool-cases (x == 0x7e)) [
    | inl flag ↦ rw ((==_iff x 0x7e).0 flag) (Accepts-flag p.buffer p.start_token_seen s o)
    | inr plain ↦ Accepts-plain p.buffer p.start_token_seen s x o room plain
  ]

  -- After a part of the stream the rest still fits.
  accepts_all :
      (p : Parser) (s : S) (xs ys : List ℕ)
      → IsOpen p
      → Fits (length p.buffer) (xs ++ ys)
      → (p' : Parser) × (s' : S) × (accept_bytes interpret p s xs ≡ some (p', s'))
        × IsOpen p'
        × Fits (length p'.buffer) ys
  unfolding accept_bytes
  accepts_all p s [] ys o f = (p, s, refl, o, f)
  accepts_all p s (x ∷ xs) ys o f =
      let a = accepts p s x o f.0 in
      let (p', s', e, o', f') =
        accepts_all a.next a.owner xs ys a.open_next (Fits-mono _ _ (xs ++ ys) a.smaller f.1) in
      (p', s', rw a.returns e, o', f')

  -- However a stream is cut into reads, the parser does what the automaton does with all its bytes,
  -- provided that no run without delimiter overflows the buffer.
  pub feed_bytewise :
      (p : Parser) (s : S) (chunks : List (List ℕ))
      → IsOpen p
      → Fits (length p.buffer) (joined chunks)
      → feed p s chunks ≡ accept_bytes interpret p s (joined chunks)
  unfolding feed
  feed_bytewise p s [] o f = unfold accept_bytes in refl
  feed_bytewise p s (chunk ∷ chunks) o f =
      let (p', s', e, o', f') = accepts_all p s chunk (joined chunks) o f in
      let head : add_received_raw_bytes interpret p s chunk ≡ some (p', s') =
        add_received_raw_bytes_bytewise interpret p s chunk o
          (Fits-append_left (length p.buffer) chunk (joined chunks) f)
        ∙ e in
      rw (head, accept_bytes-append interpret p s chunk (joined chunks), e)
        (feed_bytewise p' s' chunks o' f')
