-- ===== src/Serial/Writing.antt =====
-- SerialPortHandler.cpp, TransmitHDLCFrame and DoWrite: a frame that the port takes in parts.
use hdlcd.Base.{
  ℕ, ◌+◌, ◌<◌, ◌≡◌, refl, sym, ap, ◌∙◌, Bool, true, false, not, ◌==◌, List, [], ◌∷◌, ◌++◌, arith,
  if◌then◌else◌, length, take, drop, take-append, take-append-drop, length-drop, append-nil, zero,
  suc,
}
use native.Mathlib.Nat.{suc-add}
use hdlcd.Lock.{get_serial_port_state}
use hdlcd.Hdlc.ProtocolState.Operations.{trigger_next_hdlc_frame}
use hdlcd.Serial.{PortCall, write_some, Handler}
use hdlcd.Serial.Operations.{
  drive, requires_buffer_type, do_write, transmit_frame, done, on_written,
}

-- What is still to be written.
abbrev pub unsent : Handler → List ℕ
unsent h = drop h.send_buffer_offset h.send_buffer

-- The callback of each write of a part, and the bytes that the parts have put on the wire: the first ones
-- of those that the port was asked to write.
unfoldable pub write_parts : List ℕ → Handler → Handler
unfolding on_written
write_parts [] h = h
write_parts (n ∷ ns) h = write_parts ns (on_written (done n) h)

-- The bytes of the write that the port was asked for last.
abbrev pub handed : List PortCall → List ℕ
handed [] = []
handed (write_some bytes ∷ calls) = bytes
handed (other ∷ calls) = handed calls

unfoldable pub wire : List ℕ → Handler → List ℕ
unfolding on_written
wire [] h = []
wire (n ∷ ns) h = take n (handed h.calls) ++ wire ns (on_written (done n) h)

abbrev pub total : List ℕ → ℕ
total [] = 0
total (n ∷ ns) = n + total ns

-- A write that succeeds has taken a byte at least.
abbrev pub ArePositive : List ℕ → Type 0
ArePositive [] = Unit
ArePositive (n ∷ ns) = (0 < n) × ArePositive ns

-- The handler that has written a frame and may ask for the next one.
pub record HasWritten (before after : Handler) : Type 0 where
  pub offset : after.send_buffer_offset ≡ 0
  pub writing : after.writing ≡ false
  pub protocol : after.protocol ≡ before.protocol
  pub nbr_of_locks : after.nbr_of_locks ≡ before.nbr_of_locks
  pub registered : after.registered ≡ before.registered
  pub failed : after.failed ≡ before.failed

two_ifs :
    (a b : Bool) (w x y z : Handler)
    → a ≡ true
    → b ≡ true
    → (if a then (if b then w else x) else (if b then y else z)) ≡ w
two_ifs true true w x y z ha hb = refl
two_ifs true false w x y z ha hb = absurd (cc hb)
two_ifs false b w x y z ha hb = absurd (cc ha)

two_ifs_later :
    (a b : Bool) (w x y z : Handler)
    → a ≡ false
    → b ≡ true
    → (if a then (if b then w else x) else (if b then y else z)) ≡ y
two_ifs_later false true w x y z ha hb = refl
two_ifs_later false false w x y z ha hb = absurd (cc hb)
two_ifs_later true b w x y z ha hb = absurd (cc ha)

-- The handler whose frame is complete.
abbrev complete : Handler → Handler
complete h = record h { writing = false; send_buffer_offset = 0 }

last_part :
    (n : ℕ) (h : Handler)
    → h.nbr_of_locks ≡ 0
    → h.send_buffer_offset + n ≡ length h.send_buffer
    → on_written (done n) h ≡ drive (trigger_next_hdlc_frame (requires_buffer_type h)) (complete h)
unfolding on_written
last_part n h unlocked e =
    let operation = trigger_next_hdlc_frame (requires_buffer_type h) in
    let written = record h { writing = false; send_buffer_offset = h.send_buffer_offset + n } in
    two_ifs (h.send_buffer_offset + n == length h.send_buffer)
      (not (get_serial_port_state h.nbr_of_locks)) (drive operation (complete h)) (complete h)
      (do_write written) written (ground (arith, e)) (ground (arith, unlocked))

some_part :
    (n : ℕ) (h : Handler)
    → h.nbr_of_locks ≡ 0
    → h.send_buffer_offset + n < length h.send_buffer
    → on_written (done n) h
      ≡ do_write (record h { writing = false; send_buffer_offset = h.send_buffer_offset + n })
unfolding on_written
some_part n h unlocked e =
    let operation = trigger_next_hdlc_frame (requires_buffer_type h) in
    let written = record h { writing = false; send_buffer_offset = h.send_buffer_offset + n } in
    two_ifs_later (h.send_buffer_offset + n == length h.send_buffer)
      (not (get_serial_port_state h.nbr_of_locks)) (drive operation (complete h)) (complete h)
      (do_write written) written (ground (arith, e)) (ground (arith, unlocked))

drop-nil : (k : ℕ) → drop {A = ℕ} k [] ≡ []
drop-nil zero = refl
drop-nil (suc k) = refl

drop-drop : (m n : ℕ) (xs : List ℕ) → drop n (drop m xs) ≡ drop (m + n) xs
drop-drop zero n xs = ap (λ k. drop k xs) (omega arith)
drop-drop (suc m) n [] = drop-nil n ∙ sym (drop-nil (suc m + n))
drop-drop (suc m) n (x ∷ xs) = drop-drop m n xs ∙ ap (λ k. drop k (x ∷ xs)) (sym (suc-add m n))

take_all : (n : ℕ) (xs : List ℕ) → length xs ≡ n → take n xs ≡ xs
take_all n xs e =
    ap (λ k. take k xs) (sym e)
    ∙ ap (λ ys. take (length xs) ys) (sym (append-nil xs))
    ∙ take-append xs []

-- The handler after a part that is not the last.
abbrev partly : ℕ → Handler → Handler
partly n h = record h { writing = false; send_buffer_offset = h.send_buffer_offset + n }

-- The rest of a frame, from a write on.
rest_is_written :
    (parts : List ℕ) (h : Handler)
    → h.nbr_of_locks ≡ 0
    → h.send_buffer_offset < length h.send_buffer
    → handed h.calls ≡ unsent h
    → ArePositive parts
    → h.send_buffer_offset + total parts ≡ length h.send_buffer
    → (wire parts h ≡ unsent h)
      × ((k : Handler) × HasWritten h k
          × (write_parts parts h ≡ drive (trigger_next_hdlc_frame (requires_buffer_type k)) k))
unfolding write_parts wire do_write
rest_is_written [] h unlocked some_left asked pos e = absurd (omega (arith, some_left, e))
rest_is_written (n ∷ []) h unlocked some_left asked pos e = (
  append-nil (take n (handed h.calls))
      ∙ ap (take n) asked
      ∙ take_all n (unsent h) (omega (arith, length-drop h.send_buffer_offset h.send_buffer, e)),
  (
    complete h,
    record {
      offset = refl;
      writing = refl;
      protocol = refl;
      nbr_of_locks = refl;
      registered = refl;
      failed = refl;
    },
    last_part n h unlocked (omega (arith, e)),
  ),
)
rest_is_written (n ∷ m ∷ ns) h unlocked some_left asked pos e =
    let next : on_written (done n) h ≡ do_write (partly n h) =
      some_part n h unlocked (omega (arith, e, pos.1.0)) in
    let (bytes, (k, wrote, ends)) =
      rest_is_written (m ∷ ns) (do_write (partly n h)) unlocked (omega (arith, e, pos.1.0)) refl
        pos.1 (omega (arith, e)) in
    (
      ap (λ l. take n l ++ wire (m ∷ ns) (on_written (done n) h)) asked
          ∙ ap (λ g. take n (unsent h) ++ wire (m ∷ ns) g) next
          ∙ ap (λ l. take n (unsent h) ++ l)
              (bytes ∙ sym (drop-drop h.send_buffer_offset n h.send_buffer))
          ∙ take-append-drop n (unsent h),
      (
        k,
        record {
          offset = wrote.offset;
          writing = wrote.writing;
          protocol = wrote.protocol;
          nbr_of_locks = wrote.nbr_of_locks;
          registered = wrote.registered;
          failed = wrote.failed;
        },
        ap (λ g. write_parts (m ∷ ns) g) next ∙ ends,
      ),
    )

-- TransmitHDLCFrame of a frame that is not empty, while the port is not locked and no frame is half
-- written: however the port takes the bytes that it is asked to write, in parts of a byte at least that
-- make up the frame, the parts on the wire are the frame in order; with the last part the offset is 0
-- again and the protocol is asked for the next frame, and nothing has failed.
pub frame_is_written :
    (parts bytes : List ℕ) (g : Handler)
    → g.nbr_of_locks ≡ 0
    → g.send_buffer_offset ≡ 0
    → 0 < length bytes
    → ArePositive parts
    → total parts ≡ length bytes
    → let h = transmit_frame bytes g in
      (wire parts h ≡ bytes)
      × ((k : Handler) × HasWritten h k
          × (write_parts parts h ≡ drive (trigger_next_hdlc_frame (requires_buffer_type k)) k))
      × (h.failed ≡ g.failed)
unfolding transmit_frame do_write
frame_is_written parts bytes g unlocked offset some_byte pos e =
    let h = transmit_frame bytes g in
    let whole : unsent h ≡ bytes = ap (λ n. drop n bytes) offset in
    let (on_wire, ends) =
      rest_is_written parts h unlocked (omega (arith, offset, some_byte)) refl pos
        (omega (arith, offset, e)) in
    (on_wire ∙ whole, ends, ground (arith, offset, unlocked))
