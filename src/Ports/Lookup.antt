-- ===== src/Ports/Lookup.antt =====
-- SerialPortHandlerCollection.cpp: the map from names to handlers.
use hdlcd.Base.{
  ℕ, ◌+◌, ◌<◌, ◌≡◌, refl, sym, ap, subst, ◌∙◌, inl, inr, Bool, true, false, ◌&&◌, ◌==◌, List, [],
  ◌∷◌, ◌++◌, Option, none, some, if◌then◌else◌, arith, Bool-cases,
}
use hdlcd.Ports.{same_name, Slot, find_slot, put_slot, deregister_port_handler}

pub same_name_refl : (xs : List ℕ) → same_name xs xs ≡ true
unfolding same_name
same_name_refl [] = refl
same_name_refl (x ∷ xs) = ground (arith, same_name_refl xs)

pub same_name_sound : (xs ys : List ℕ) → same_name xs ys ≡ true → xs ≡ ys
unfolding same_name
same_name_sound [] [] e = refl
same_name_sound [] (y ∷ ys) e = absurd (cc e)
same_name_sound (x ∷ xs) [] e = absurd (cc e)
same_name_sound (x ∷ xs) (y ∷ ys) e = ground (arith, same_name_sound xs ys)

pub on_true {ℓ} : {A : Type ℓ} (b : Bool) (x y : A) → b ≡ true → (if b then x else y) ≡ x
on_true true x y e = refl
on_true false x y e = absurd (cc e)

pub on_false {ℓ} : {A : Type ℓ} (b : Bool) (x y : A) → b ≡ false → (if b then x else y) ≡ y
on_false true x y e = absurd (cc e)
on_false false x y e = refl

-- What has been put is found.
pub find_slot-put_slot :
    (slot : Slot) (slots : List Slot) → find_slot slot.name (put_slot slot slots) ≡ some slot
unfolding find_slot put_slot
find_slot-put_slot slot [] = on_true (same_name slot.name slot.name) _ _ (same_name_refl slot.name)
find_slot-put_slot slot (s ∷ slots) = elim (Bool-cases (same_name slot.name s.name)) [
  | inl same ↦ rw same (on_true (same_name slot.name slot.name) _ _ (same_name_refl slot.name))
  | inr other ↦
      rw other (on_false (same_name slot.name s.name) _ _ other ∙ find_slot-put_slot slot slots)
]

pub slot_of : (s t : Slot) → some s ≡ some t → s ≡ t
slot_of s t e = ap (λ o. elim o [ none ↦ s | some x ↦ x ]) e

found-if :
    (b : Bool) (name : List ℕ) (t s : Slot) (rest : Option Slot)
    → (b ≡ true → name ≡ t.name)
    → (rest ≡ some s → name ≡ s.name)
    → (if b then some t else rest) ≡ some s
    → name ≡ s.name
found-if true name t s rest here later e = here refl ∙ ap (λ x. x.name) (slot_of t s e)
found-if false name t s rest here later e = later e

pub found-name :
    (name : List ℕ) (slots : List Slot) (s : Slot) → find_slot name slots ≡ some s → name ≡ s.name
unfolding find_slot
found-name name [] s e = absurd (cc e)
found-name name (t ∷ slots) s e =
    found-if (same_name name t.name) name t s (find_slot name slots) (same_name_sound name t.name)
      (found-name name slots s) e

-- No slot of that name.
abbrev pub Lacks : List ℕ → List Slot → Type 0
Lacks name [] = Unit
Lacks name (s ∷ slots) = (same_name name s.name ≡ false) × Lacks name slots

-- The names are the keys of a map, and the handlers have numbers that have been given out.
abbrev pub AreKeyed : ℕ → List Slot → Type 0
AreKeyed bound [] = Unit
AreKeyed bound (s ∷ slots) = Lacks s.name slots × (s.number < bound) × AreKeyed bound slots

lacking : (name : List ℕ) (slots : List Slot) → Lacks name slots → find_slot name slots ≡ none
unfolding find_slot
lacking name [] l = refl
lacking name (s ∷ slots) (differs, l) =
    on_false (same_name name s.name) _ _ differs ∙ lacking name slots l

own_number : (held : Bool) (n : ℕ) → held ≡ true → (held && (n == n)) ≡ true
own_number held n e = ground (arith, e)

older_number : (held : Bool) (m n : ℕ) → m < n → (held && (m == n)) ≡ false
older_number held m n less = ground (arith, less)

-- A handler that is put into the map and deregistered at once leaves no slot of its name.
pub forgotten :
    (slot : Slot) (slots : List Slot)
    → slot.held ≡ true
    → AreKeyed slot.number slots
    → find_slot slot.name (deregister_port_handler slot.number (put_slot slot slots)) ≡ none
unfolding find_slot put_slot deregister_port_handler
forgotten slot [] held k =
    ap (λ l. find_slot slot.name l)
      (on_true (slot.held && (slot.number == slot.number)) [] (slot ∷ [])
        (own_number slot.held slot.number held))
forgotten slot (s ∷ slots) held (l, small, k) = elim (Bool-cases (same_name slot.name s.name)) [
  | inl same ↦ rw same (
      ap (λ l. find_slot slot.name l)
        (on_true (slot.held && (slot.number == slot.number)) slots _
          (own_number slot.held slot.number held))
      ∙ lacking slot.name slots
          (subst (λ n. Lacks n slots) (sym (same_name_sound slot.name s.name same)) l))
  | inr other ↦ rw other (
      ap (λ l. find_slot slot.name l)
        (on_false (s.held && (s.number == slot.number)) (put_slot slot slots)
          (s ∷ deregister_port_handler slot.number (put_slot slot slots))
          (older_number s.held s.number slot.number small))
      ∙ on_false (same_name slot.name s.name) (some s)
          (find_slot slot.name (deregister_port_handler slot.number (put_slot slot slots))) other
      ∙ forgotten slot slots held k)
]

other_way : (m n : List ℕ) → same_name m n ≡ false → same_name n m ≡ false
other_way m n e = elim (Bool-cases (same_name n m)) [
  | inl same ↦ absurd (
      cc (e, subst (λ k. same_name m k ≡ true) (sym (same_name_sound n m same)) (same_name_refl m)))
  | inr other ↦ other
]

Lacks-put_slot :
    (name : List ℕ) (slot : Slot) (slots : List Slot)
    → same_name name slot.name ≡ false
    → Lacks name slots
    → Lacks name (put_slot slot slots)
unfolding put_slot
Lacks-put_slot name slot [] differs l = (differs, tt)
Lacks-put_slot name slot (s ∷ slots) differs (first, l) =
    elim (Bool-cases (same_name slot.name s.name)) [
      | inl same ↦ rw same (differs, l)
      | inr other ↦ rw other (first, Lacks-put_slot name slot slots differs l)
    ]

pub AreKeyed-put_slot :
    (bound : ℕ) (slot : Slot) (slots : List Slot)
    → slot.number < bound
    → AreKeyed bound slots
    → AreKeyed bound (put_slot slot slots)
unfolding put_slot
AreKeyed-put_slot bound slot [] small k = (tt, small, tt)
AreKeyed-put_slot bound slot (s ∷ slots) small (l, old, k) =
    elim (Bool-cases (same_name slot.name s.name)) [
      | inl same ↦
          rw same
            (subst (λ n. Lacks n slots) (sym (same_name_sound slot.name s.name same)) l, small, k)
      | inr other ↦ rw other (
        Lacks-put_slot s.name slot slots (other_way slot.name s.name other) l,
        old,
        AreKeyed-put_slot bound slot slots small k,
      )
    ]

Lacks-deregister :
    (name : List ℕ) (number : ℕ) (slots : List Slot)
    → Lacks name slots
    → Lacks name (deregister_port_handler number slots)
unfolding deregister_port_handler
Lacks-deregister name number [] l = tt
Lacks-deregister name number (s ∷ slots) (first, l) =
    elim (Bool-cases (s.held && (s.number == number))) [
      | inl found ↦ rw found l
      | inr other ↦ rw other (first, Lacks-deregister name number slots l)
    ]

pub AreKeyed-deregister :
    (bound number : ℕ) (slots : List Slot)
    → AreKeyed bound slots
    → AreKeyed bound (deregister_port_handler number slots)
unfolding deregister_port_handler
AreKeyed-deregister bound number [] k = tt
AreKeyed-deregister bound number (s ∷ slots) (l, old, k) =
    elim (Bool-cases (s.held && (s.number == number))) [
      | inl found ↦ rw found k
      | inr other ↦
          rw other
            (Lacks-deregister s.name number slots l, old, AreKeyed-deregister bound number slots k)
    ]

pub AreKeyed-weaken :
    (slots : List Slot) (bound : ℕ) → AreKeyed bound slots → AreKeyed (bound + 1) slots
AreKeyed-weaken [] bound k = tt
AreKeyed-weaken (s ∷ slots) bound (l, old, k) =
    (l, omega (arith, old), AreKeyed-weaken slots bound k)

pub find_slot-old :
    (name : List ℕ) (slots : List Slot) (bound : ℕ) (s : Slot)
    → AreKeyed bound slots
    → find_slot name slots ≡ some s
    → s.number < bound
unfolding find_slot
find_slot-old name [] bound s k e = absurd (cc e)
find_slot-old name (t ∷ slots) bound s (l, old, k) e = elim (Bool-cases (same_name name t.name)) [
  | inl same ↦
      subst (λ x. x.number < bound)
        (slot_of t s (sym (on_true (same_name name t.name) _ _ same) ∙ e)) old
  | inr other ↦
      find_slot-old name slots bound s k (sym (on_false (same_name name t.name) _ _ other) ∙ e)
]

expired_slot-Lacks :
    (name : List ℕ) (before after : List Slot) (s : Slot)
    → Lacks name (before ++ s ∷ after)
    → Lacks name (before ++ record s { held = false } ∷ after)
expired_slot-Lacks name [] after s l = l
expired_slot-Lacks name (t ∷ before) after s (first, l) =
    (first, expired_slot-Lacks name before after s l)

-- An element of the map whose weak pointer expires.
pub expired_slot-AreKeyed :
    (bound : ℕ) (before after : List Slot) (s : Slot)
    → AreKeyed bound (before ++ s ∷ after)
    → AreKeyed bound (before ++ record s { held = false } ∷ after)
expired_slot-AreKeyed bound [] after s k = k
expired_slot-AreKeyed bound (t ∷ before) after s (l, old, k) =
    (expired_slot-Lacks t.name before after s l, old, expired_slot-AreKeyed bound before after s k)
