-- ===== src/Hdlc/ProtocolState/Safe.antt =====
-- ProtocolState.cpp: the invariant of a started object, and the steps that keep it.
use hdlcd.Base.{
  ℕ, ◌<◌, ◌≡◌, refl, sym, ap, subst, ◌∙◌, Bool, true, false, List, arith, if◌then◌else◌,
}
use hdlcd.Hdlc.AliveState.{Alive}
use hdlcd.Hdlc.FrameParser.{Parser}
use hdlcd.Hdlc.ProtocolState.{BufferType, Action, Protocol, empty, demand, emit, deliver_required}

-- No call has gone wrong, the sequence numbers have three bits, an I-frame that waits for its ACK is
-- still in the queue, and there is a port.
pub record IsLive (p : Protocol) : Type 0 where
  pub ok : p.failed ≡ false
  pub s_fits : p.s_seq_outgoing < 8
  pub r_fits : p.r_seq_incoming < 8
  pub queued : p.wait_for_ack ≡ true → empty p.wait_queue_reliable ≡ false
  pub port : p.attached ≡ true

-- A step of the object that keeps the invariant and leaves these members alone.
pub record IsSafe (p q : Protocol) : Type 0 where
  pub keeps_started : q.started ≡ p.started
  pub keeps_alive : q.alive ≡ p.alive
  pub keeps_parser : q.parser ≡ p.parser
  pub keeps_live : IsLive p → IsLive q

pub stay : (p : Protocol) → IsSafe p p
stay p = record {
  keeps_started = refl;
  keeps_alive = refl;
  keeps_parser = refl;
  keeps_live = λ l. l;
}

pub and_then : {p q r : Protocol} → IsSafe p q → IsSafe q r → IsSafe p r
and_then a b = record {
  keeps_started = b.keeps_started ∙ a.keeps_started;
  keeps_alive = b.keeps_alive ∙ a.keeps_alive;
  keeps_parser = b.keeps_parser ∙ a.keeps_parser;
  keeps_live = λ l. b.keeps_live (a.keeps_live l);
}

pub either :
    {p q r : Protocol} (b : Bool)
    → (b ≡ true → IsSafe p q)
    → (b ≡ false → IsSafe p r)
    → IsSafe p (if b then q else r)
either true x y = x refl
either false x y = y refl

pub emit-IsSafe : (a : Action) (p : Protocol) → IsSafe p (emit a p)
emit-IsSafe a p = record {
  keeps_started = refl;
  keeps_alive = refl;
  keeps_parser = refl;
  keeps_live = λ l. record {
    ok = ground (arith, l.ok, l.port);
    s_fits = l.s_fits;
    r_fits = l.r_fits;
    queued = l.queued;
    port = l.port;
  };
}

pub demand-IsSafe : (b : Bool) (p : Protocol) → (IsLive p → b ≡ true) → IsSafe p (demand b p)
demand-IsSafe b p h = record {
  keeps_started = refl;
  keeps_alive = refl;
  keeps_parser = refl;
  keeps_live = λ l. record {
    ok = ground (arith, l.ok, h l);
    s_fits = l.s_fits;
    r_fits = l.r_fits;
    queued = l.queued;
    port = l.port;
  };
}

pub deliver_required-IsSafe :
    (requires : BufferType → Bool) (type : BufferType) (bytes : List ℕ)
    (reliable invalid was_sent : Bool) (p : Protocol)
    → IsSafe p (deliver_required requires type bytes reliable invalid was_sent p)
unfolding deliver_required
deliver_required-IsSafe requires type bytes reliable invalid was_sent p =
    either (requires type) (λ _. emit-IsSafe _ p) (λ _. demand-IsSafe p.attached p (λ l. l.port))

-- The members that a quiet step leaves alone.
pub record Core : Type 0 where
  pub started : Bool
  pub alive : Alive
  pub parser : Parser
  pub failed : Bool
  pub attached : Bool
  pub s_seq : ℕ
  pub r_seq : ℕ

abbrev pub core : Protocol → Core
core p = record {
  started = p.started;
  alive = p.alive;
  parser = p.parser;
  failed = p.failed;
  attached = p.attached;
  s_seq = p.s_seq_outgoing;
  r_seq = p.r_seq_incoming;
}

pub same_core :
    {p q : Protocol}
    → core q ≡ core p
    → (IsLive p → q.wait_for_ack ≡ true → empty q.wait_queue_reliable ≡ false)
    → IsSafe p q
same_core e h = record {
  keeps_started = ap (λ c. c.started) e;
  keeps_alive = ap (λ c. c.alive) e;
  keeps_parser = ap (λ c. c.parser) e;
  keeps_live = λ l. record {
    ok = ap (λ c. c.failed) e ∙ l.ok;
    s_fits = subst (λ n. n < 8) (sym (ap (λ c. c.s_seq) e)) l.s_fits;
    r_fits = subst (λ n. n < 8) (sym (ap (λ c. c.r_seq) e)) l.r_fits;
    queued = h l;
    port = ap (λ c. c.attached) e ∙ l.port;
  };
}
