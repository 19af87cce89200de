-- ===== src/Hdlc/FrameParser/Bytewise.antt =====
-- FrameParser.cpp against an automaton that reads one byte at a time.
use mathlib.Core.Option
use hdlcd.Base.{
  ℕ, zero, suc, ◌+◌, ◌≤◌, ◌<◌, ◌≡◌, ◌≢◌, refl, sym, ap, ◌∙◌, inl, inr, Bool, true, false, not, List,
  [], ◌∷◌, ◌++◌, append_assoc, Option, some, arith, ◌==◌, if◌then◌else◌, Option-cases, length,
  length-append, drop, All-append, ltb, leb, ◌>>=◌, append-nil,
}
use hdlcd.Hdlc.Frame.{HdlcFrame}
use hdlcd.Hdlc.FrameParser.{
  Parser, resize_one, remove_escape_characters, add_chunk, consume, add_received_raw_bytes,
}
use hdlcd.Hdlc.FrameParser.Window.{NoFlag, Scan, found, scan, drop-length-suc}
use hdlcd.Hdlc.FrameParser.Close.{window, IsOpen, remove_total}
use hdlcd.Hdlc.FrameParser.Chunk.{add_chunk-clean, add_chunk-found}

abbrev pub state : List ℕ → Bool → Parser
state b seen = record { buffer = b; start_token_seen = seen }

-- Between delimiters the buffer, now of length `n`, never grows past twice the maximum length.
abbrev pub Fits : ℕ → List ℕ → Type 0
Fits n [] = n ≤ 2048
Fits n (x ∷ xs) = (n < 2048) × Fits (if x == 0x7e then 1 else n + 1) xs

Fits-clean : (n : ℕ) (run : List ℕ) → NoFlag run → Fits n run → n + length run ≤ 2048
Fits-clean n [] h f = omega (arith, f)
Fits-clean n (x ∷ run) h f = ground (arith, Fits-clean (n + 1) run h.1)

Fits-found :
    (n : ℕ) (run rest : List ℕ)
    → NoFlag run
    → Fits n (run ++ 0x7e ∷ rest)
    → (n + length run < 2048) × Fits 1 rest
Fits-found n [] rest h f = (omega (arith, f.0), f.1)
Fits-found n (x ∷ run) rest h f = ground (arith, Fits-found (n + 1) run rest h.1)

not_flag : (x : ℕ) → x ≢ 0x7e → (x == 0x7e) ≡ false
not_flag x h = ground arith

module _ {S : Type 0} (interpret : List ℕ → HdlcFrame → Bool → S → S) where
  -- The automaton. It has no limit on the length: a delimiter closes the window that is open.
  unfoldable pub accept_byte : Parser → S → ℕ → Option (Parser × S)
  accept_byte p s x =
      if not (x == 0x7e)
      then some (if p.start_token_seen then record p { buffer = p.buffer ++ x ∷ [] } else p, s)
      else if not p.start_token_seen
      then some (record p { start_token_seen = true }, s)
      else Option.map
          (λ (valid, buffer, s').
            (record { buffer = resize_one buffer; start_token_seen = not valid }, s'))
          (remove_escape_characters interpret (p.buffer ++ 0x7e ∷ []) p.start_token_seen s)

  unfoldable pub accept_bytes : Parser → S → List ℕ → Option (Parser × S)
  accept_bytes p s [] = some (p, s)
  accept_bytes p s (x ∷ xs) = accept_byte p s x >>= λ (p', s'). accept_bytes p' s' xs

  pub accept_bytes-append :
      (p : Parser) (s : S) (xs ys : List ℕ)
      → accept_bytes p s (xs ++ ys) ≡ (accept_bytes p s xs >>= λ (p', s'). accept_bytes p' s' ys)
  unfolding accept_bytes
  accept_bytes-append p s [] ys = refl
  accept_bytes-append p s (x ∷ xs) ys = elim (Option-cases (accept_byte p s x)) [
    | inl stuck ↦ rw stuck
    | inr (r, e) ↦ rw e (accept_bytes-append r.0 r.1 xs ys)
  ]

  pub accept_clean_unseen :
      (b : List ℕ) (s : S) (run : List ℕ)
      → NoFlag run
      → accept_bytes (record { buffer = b; start_token_seen = false }) s run
        ≡ some (record { buffer = b; start_token_seen = false }, s)
  unfolding accept_bytes accept_byte
  accept_clean_unseen b s [] h = refl
  accept_clean_unseen b s (x ∷ run) h = ground (arith, accept_clean_unseen b s run h.1)

  pub accept_clean_seen :
      (b : List ℕ) (s : S) (run : List ℕ)
      → NoFlag run
      → accept_bytes (record { buffer = b; start_token_seen = true }) s run
        ≡ some (record { buffer = b ++ run; start_token_seen = true }, s)
  unfolding accept_bytes accept_byte
  accept_clean_seen b s [] h = rw append-nil
  accept_clean_seen b s (x ∷ run) h =
      rw (not_flag x h.0)
        (accept_clean_seen (b ++ x ∷ []) s run h.1 ∙ rw (append_assoc b (x ∷ []) run))

  -- A delimiter, and what the automaton makes of it.
  pub accept_flag_unseen :
      (b : List ℕ) (s : S) (rest : List ℕ)
      → accept_bytes (record { buffer = b; start_token_seen = false }) s (0x7e ∷ rest)
        ≡ accept_bytes (record { buffer = b; start_token_seen = true }) s rest
  unfolding accept_bytes accept_byte
  accept_flag_unseen b s rest = refl

  pub accept_flag_seen :
      (b : List ℕ) (s : S) (rest : List ℕ) {valid : Bool} {left : List ℕ} {owner : S}
      → remove_escape_characters interpret (b ++ 0x7e ∷ []) true s ≡ some (valid, left, owner)
      → accept_bytes (record { buffer = b; start_token_seen = true }) s (0x7e ∷ rest)
        ≡ accept_bytes
            (record { buffer = resize_one left; start_token_seen = not valid })
            owner
            rest
  unfolding accept_bytes accept_byte
  accept_flag_seen b s rest e = rw e

  -- One chunk of the loop and the bytes that it takes.
  record Matches (fuel : ℕ) (p : Parser) (s : S) (bytes : List ℕ) : Type 0 where
    next : Parser
    owner : S
    rest : List ℕ
    open_next : IsOpen next
    fits : Fits (length next.buffer) rest
    shorter : length rest < length bytes
    loop : consume interpret (suc fuel) p s bytes ≡ consume interpret fuel next owner rest
    automaton : accept_bytes p s bytes ≡ accept_bytes next owner rest

  consume_step :
      (fuel : ℕ) (p : Parser) (s : S) (bytes : List ℕ) {n : ℕ} {p' : Parser} {s' : S}
      → 0 < length bytes
      → add_chunk interpret p s bytes ≡ some (n, p', s')
      → consume interpret (suc fuel) p s bytes ≡ consume interpret fuel p' s' (drop n bytes)
  unfolding consume
  consume_step fuel p s [] h e = absurd (omega arith)
  consume_step fuel p s (x ∷ xs) h e = rw e

  drop_all : (n : ℕ) (xs : List ℕ) → length xs ≤ n → drop n xs ≡ []
  drop_all zero [] h = refl
  drop_all zero (x ∷ xs) h = absurd (omega arith)
  drop_all (suc n) [] h = refl
  drop_all (suc n) (x ∷ xs) h = drop_all n xs (omega arith)

  clean :
      (fuel : ℕ) (b : List ℕ) (seen : Bool) (s : S) (bytes : List ℕ)
      → IsOpen (state b seen)
      → 0 < length bytes
      → Fits (length b) bytes
      → NoFlag bytes
      → Matches fuel (state b seen) s bytes
  clean fuel b false s bytes o nonempty f h = record {
    next = state b false;
    owner = s;
    rest = [];
    open_next = o;
    fits = omega (arith, Fits-clean (length b) bytes h f);
    shorter = nonempty;
    loop =
        consume_step fuel (state b false) s bytes nonempty
          (add_chunk-clean interpret (state b false) s bytes h)
        ∙ rw (drop_all (length bytes) bytes (omega arith));
    automaton = accept_clean_unseen b s bytes h ∙ unfold accept_bytes in refl;
  }
  clean fuel b true s bytes o nonempty f h =
      let short : ltb 2048 (length b + length bytes) ≡ false =
        ground (arith, Fits-clean (length b) bytes h f) in
      let chunk : add_chunk interpret (state b true) s bytes
          ≡ some (length bytes, state (b ++ bytes) true, s) =
        add_chunk-clean interpret (state b true) s bytes h ∙ rw short in
      record {
        next = state (b ++ bytes) true;
        owner = s;
        rest = [];
        open_next = record {
          body = o.body ++ bytes;
          framed = ap (λ t. t ++ bytes) o.framed;
          no_flag = All-append (λ x. x ≢ 0x7e) o.body bytes o.no_flag h;
          fits = omega (
            arith,
            Fits-clean (length b) bytes h f,
            length-append o.body bytes,
            ap length o.framed,
          );
          idle = λ e. absurd (cc);
        };
        fits = omega (arith, Fits-clean (length b) bytes h f, length-append b bytes);
        shorter = nonempty;
        loop =
            consume_step fuel (state b true) s bytes nonempty chunk
            ∙ rw (drop_all (length bytes) bytes (omega arith));
        automaton = accept_clean_seen b s bytes h ∙ unfold accept_bytes in refl;
      }

  flagged :
      (fuel : ℕ) (b : List ℕ) (seen : Bool) (s : S) (run rest : List ℕ)
      → IsOpen (state b seen)
      → Fits (length b) (run ++ 0x7e ∷ rest)
      → NoFlag run
      → Matches fuel (state b seen) s (run ++ 0x7e ∷ rest)
  flagged fuel b false s run rest o f h = record {
    next = state b true;
    owner = s;
    rest = rest;
    open_next = record {
      body = o.body;
      framed = o.framed;
      no_flag = o.no_flag;
      fits = o.fits;
      idle = λ e. absurd (cc);
    };
    fits =
        rw (ap length (o.framed ∙ ap (λ t. 0x7e ∷ t) (o.idle refl)))
          (Fits-found (length b) run rest h f).1;
    shorter = omega (arith, length-append run (0x7e ∷ rest));
    loop =
        consume_step fuel (state b false) s (run ++ 0x7e ∷ rest)
          (omega (arith, length-append run (0x7e ∷ rest)))
          (add_chunk-found interpret (state b false) s run rest h o)
        ∙ rw (drop-length-suc 0x7e run rest);
    automaton =
        accept_bytes-append (state b false) s run (0x7e ∷ rest)
        ∙ rw (accept_clean_unseen b s run h) (accept_flag_unseen b s rest);
  }
  flagged fuel b true s run rest o f h =
      let room = Fits-found (length b) run rest h f in
      let short : leb (length b + (length run + 1)) 2048 ≡ true = ground (arith, room.0) in
      let c = remove_total interpret (o.body ++ run) s in
      let whole : (b ++ run) ++ 0x7e ∷ [] ≡ window (o.body ++ run) =
        ap (λ t. (t ++ run) ++ 0x7e ∷ []) o.framed in
      let chunk : add_chunk interpret (state b true) s (run ++ 0x7e ∷ rest)
          ≡ some (length run + 1, state (resize_one c.left) (not c.valid), c.owner) =
        add_chunk-found interpret (state b true) s run rest h o ∙ rw (short, c.returns) in
      record {
        next = state (resize_one c.left) (not c.valid);
        owner = c.owner;
        rest = rest;
        open_next = record {
          body = [];
          framed = c.trimmed;
          no_flag = tt;
          fits = omega arith;
          idle = λ e. refl;
        };
        fits = rw (ap length c.trimmed) room.1;
        shorter = omega (arith, length-append run (0x7e ∷ rest));
        loop =
            consume_step fuel (state b true) s (run ++ 0x7e ∷ rest)
              (omega (arith, length-append run (0x7e ∷ rest))) chunk
            ∙ rw (drop-length-suc 0x7e run rest);
        automaton =
            accept_bytes-append (state b true) s run (0x7e ∷ rest)
            ∙ rw (accept_clean_seen b s run h) (
                accept_flag_seen (b ++ run) s rest
                  (ap (λ t. remove_escape_characters interpret t true s) whole ∙ c.returns));
      }

  matches :
      (fuel : ℕ) (p : Parser) (s : S) (bytes : List ℕ)
      → IsOpen p
      → 0 < length bytes
      → Fits (length p.buffer) bytes
      → Matches fuel p s bytes
  matches fuel p s bytes o nonempty f = by_scan bytes nonempty f (scan bytes)
    where
      by_scan :
          (bytes : List ℕ)
          → 0 < length bytes
          → Fits (length p.buffer) bytes
          → Scan bytes
          → Matches fuel p s bytes
      by_scan bytes nonempty f (Scan.clean h) =
          clean fuel p.buffer p.start_token_seen s bytes o nonempty f h
      by_scan bytes nonempty f (found run rest h e) =
          rw e (flagged fuel p.buffer p.start_token_seen s run rest o (rw e at f) h)

  consume_bytewise :
      (fuel : ℕ) (p : Parser) (s : S) (bytes : List ℕ)
      → IsOpen p
      → Fits (length p.buffer) bytes
      → length bytes ≤ fuel
      → consume interpret fuel p s bytes ≡ accept_bytes p s bytes
  unfolding consume accept_bytes
  consume_bytewise fuel p s [] o f h = refl
  consume_bytewise zero p s (x ∷ xs) o f h = absurd (omega arith)
  consume_bytewise (suc fuel) p s (x ∷ xs) o f h =
      let m = matches fuel p s (x ∷ xs) o (omega arith) f in
      m.loop
      ∙ consume_bytewise fuel m.next m.owner m.rest m.open_next m.fits (omega (arith, m.shorter))
      ∙ sym m.automaton

  -- AddReceivedRawBytes does what the automaton does, from every state that meets the invariant and
  -- on all bytes among which no run without delimiter overflows the buffer.
  pub add_received_raw_bytes_bytewise :
      (p : Parser) (s : S) (bytes : List ℕ)
      → IsOpen p
      → Fits (length p.buffer) bytes
      → add_received_raw_bytes interpret p s bytes ≡ accept_bytes p s bytes
  unfolding add_received_raw_bytes
  add_received_raw_bytes_bytewise p s bytes o f =
      consume_bytewise (length bytes) p s bytes o f (omega arith)
