-- ===== src/Hdlc/FrameParser/Chunk.antt =====
-- FrameParser.cpp: AddChunk, with its branches as equations.
use mathlib.Core.Option
use hdlcd.Base.{
  ℕ, ◌+◌, ◌≤◌, ◌<◌, ◌≡◌, ◌≢◌, refl, ap, ◌∙◌, inl, inr, Bool, true, false, not, List, [], ◌∷◌, ◌++◌,
  some, arith, if◌then◌else◌, Bool-cases, length, length-append, All-append, ltb, leb,
}
use hdlcd.Hdlc.Frame.{HdlcFrame}
use hdlcd.Hdlc.FrameParser.{Parser, resize_one, remove_escape_characters, add_chunk}
use hdlcd.Hdlc.FrameParser.Window.{NoFlag, memchr-NoFlag, memchr-append, Scan, clean, found, scan}
use hdlcd.Hdlc.FrameParser.Close.{window, IsOpen, window-append, remove_total}

module _ {S : Type 0} (interpret : List ℕ → HdlcFrame → Bool → S → S) where
  -- One chunk: it takes at least one byte and no more than there are, and keeps the invariant.
  pub record TakesChunk (p : Parser) (s : S) (bytes : List ℕ) : Type 0 where
    pub consumed : ℕ
    pub parser : Parser
    pub owner : S
    pub returns : add_chunk interpret p s bytes ≡ some (consumed, parser, owner)
    pub progress : 0 < consumed
    pub bounded : consumed ≤ length bytes
    pub open_after : IsOpen parser

  pub add_chunk-clean :
      (p : Parser) (s : S) (bytes : List ℕ)
      → NoFlag bytes
      → add_chunk interpret p s bytes ≡ (
          if not p.start_token_seen
          then some (length bytes, p, s)
          else if ltb 2048 (length p.buffer + length bytes)
          then some
              (length bytes, record { buffer = resize_one p.buffer; start_token_seen = false }, s)
          else some (length bytes, record p { buffer = p.buffer ++ bytes }, s))
  unfolding add_chunk
  add_chunk-clean p s bytes h = rw (memchr-NoFlag bytes h, add_chunk)

  pub add_chunk-found :
      (p : Parser) (s : S) (run rest : List ℕ)
      → NoFlag run
      → (o : IsOpen p)
      → add_chunk interpret p s (run ++ 0x7e ∷ rest) ≡ (
          if not p.start_token_seen
          then some (length run + 1, record p { start_token_seen = true }, s)
          else if leb (length p.buffer + (length run + 1)) 2048
          then Option.map
              (λ (valid, buffer, s'). (
                length run + 1,
                record { buffer = resize_one buffer; start_token_seen = not valid },
                s',
              ))
              (remove_escape_characters interpret (window (o.body ++ run)) p.start_token_seen s)
          else some (length run + 1, record p { buffer = resize_one p.buffer }, s))
  unfolding add_chunk
  add_chunk-found p s run rest h o =
      rw (memchr-append run rest h, add_chunk) (rw (window-append p o run rest))

  chunk_clean :
      (p : Parser) (s : S) (bytes : List ℕ)
      → IsOpen p
      → 0 < length bytes
      → NoFlag bytes
      → TakesChunk p s bytes
  chunk_clean p s bytes o some_bytes h = elim (Bool-cases p.start_token_seen) [
    | inl seen ↦ elim (Bool-cases (ltb 2048 (length p.buffer + length bytes))) [
      | inl over ↦ record {
        consumed = length bytes;
        parser = record { buffer = resize_one p.buffer; start_token_seen = false };
        owner = s;
        returns = add_chunk-clean p s bytes h ∙ rw (seen, over);
        progress = some_bytes;
        bounded = omega arith;
        open_after = record {
          body = [];
          framed = ap resize_one o.framed;
          no_flag = tt;
          fits = omega arith;
          idle = λ _. refl;
        };
      }
      | inr fits ↦ record {
        consumed = length bytes;
        parser = record p { buffer = p.buffer ++ bytes };
        owner = s;
        returns = add_chunk-clean p s bytes h ∙ rw (seen, fits);
        progress = some_bytes;
        bounded = omega arith;
        open_after = record {
          body = o.body ++ bytes;
          framed = ap (λ t. t ++ bytes) o.framed;
          no_flag = All-append (λ x. x ≢ 0x7e) o.body bytes o.no_flag h;
          fits = ground (arith, length-append o.body bytes, ap length o.framed);
          idle = λ idle. absurd (cc);
        };
      }
    ]
    | inr unseen ↦ record {
      consumed = length bytes;
      parser = p;
      owner = s;
      returns = add_chunk-clean p s bytes h ∙ rw unseen;
      progress = some_bytes;
      bounded = omega arith;
      open_after = o;
    }
  ]

  chunk_found :
      (p : Parser) (s : S) (run rest : List ℕ)
      → IsOpen p
      → NoFlag run
      → TakesChunk p s (run ++ 0x7e ∷ rest)
  chunk_found p s run rest o h = elim (Bool-cases p.start_token_seen) [
    | inl seen ↦ elim (Bool-cases (leb (length p.buffer + (length run + 1)) 2048)) [
      | inl fits ↦
          let c = remove_total interpret (o.body ++ run) s in
          record {
            consumed = length run + 1;
            parser = record { buffer = resize_one c.left; start_token_seen = not c.valid };
            owner = c.owner;
            returns = add_chunk-found p s run rest h o ∙ rw (seen, fits, c.returns);
            progress = omega arith;
            bounded = omega (arith, length-append run (0x7e ∷ rest));
            open_after = record {
              body = [];
              framed = c.trimmed;
              no_flag = tt;
              fits = omega arith;
              idle = λ _. refl;
            };
          }
      | inr over ↦ record {
        consumed = length run + 1;
        parser = record p { buffer = resize_one p.buffer };
        owner = s;
        returns = add_chunk-found p s run rest h o ∙ rw (seen, over);
        progress = omega arith;
        bounded = omega (arith, length-append run (0x7e ∷ rest));
        open_after = record {
          body = [];
          framed = ap resize_one o.framed;
          no_flag = tt;
          fits = omega arith;
          idle = λ _. refl;
        };
      }
    ]
    | inr unseen ↦ record {
      consumed = length run + 1;
      parser = record p { start_token_seen = true };
      owner = s;
      returns = add_chunk-found p s run rest h o ∙ rw unseen;
      progress = omega arith;
      bounded = omega (arith, length-append run (0x7e ∷ rest));
      open_after = record {
        body = o.body;
        framed = o.framed;
        no_flag = o.no_flag;
        fits = o.fits;
        idle = λ seen. absurd (cc);
      };
    }
  ]

  pub add_chunk_total :
      (p : Parser) (s : S) (bytes : List ℕ) → IsOpen p → 0 < length bytes → TakesChunk p s bytes
  add_chunk_total p s bytes o h = by_scan (scan bytes)
    where
      by_scan : Scan bytes → TakesChunk p s bytes
      by_scan (clean none_found) = chunk_clean p s bytes o h none_found
      by_scan (found run rest none_before e) = rw e (chunk_found p s run rest o none_before)
