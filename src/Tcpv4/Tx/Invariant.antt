-- ===== src/Tcpv4/Tx/Invariant.antt =====
-- What holds of the transfer lists of CLA/tcpv4/src/tcpv4tx.c whenever txMutex is free.
use ion_dtn_contrib.Prelude.{
  ℕ, ◌+◌, ◌-◌, ◌≤◌, ◌≡◌, ◌⊎◌, inl, inr, refl, sym, ap, ◌∙◌, Bool, Bool-cases, true, false, not,
  ◌&&◌, ◌||◌, ◌==◌, if◌then◌else◌, List, [], ◌∷◌, length, All, Option, none, some, arith,
}
use mathlib.Core.Path.{subst}
use ion_dtn_contrib.Tcpv4.Tx.{
  Tcpv4Xfer, TxConn, find_self, store, is_head, tx_unlink, tcpv4_tx_finished, settle,
  xfer_succeeded,
}
use ion_dtn_contrib.Tcpv4.Tx.Lists.{
  total, one_if, remove, find_self-self, tx_unlink-remove, total-remove, length-remove, total-store,
  length-store, find_self-store, find_self-store_other, remove-store, find_self-remove_other,
  is_head-store,
}

-- The transmit thread has let go of it, or it is not finished.
abbrev pub IsLive : Tcpv4Xfer → Type 0
IsLive x = (x.in_flight ≡ true) ⊎ ((x.acked ≡ false) × (x.refused ≡ false))

-- Untouched, as queueXfer appends it.
abbrev pub IsWaiting : Tcpv4Xfer → Type 0
IsWaiting x = (x.in_flight ≡ false) × (x.acked ≡ false) × (x.refused ≡ false)

abbrev pub is_at : ℕ → Tcpv4Xfer → ℕ
is_at p x = one_if (x.self == p)

abbrev pub flying : Tcpv4Xfer → ℕ
flying x = one_if x.in_flight

abbrev pub carries : ℕ → Tcpv4Xfer → ℕ
carries b x = one_if (x.bundle == b)

abbrev pub count : ℕ → List ℕ → ℕ
count b [] = 0
count b (x ∷ xs) = one_if (x == b) + count b xs

abbrev pub count_reported : ℕ → List (ℕ × Bool) → ℕ
count_reported b [] = 0
count_reported b ((x, result) ∷ log) = one_if (x == b) + count_reported b log

-- The transfer that the transmit thread holds is in the window, and no other is in flight.
abbrev pub Holds : Option ℕ → List Tcpv4Xfer → Type 0
Holds none w = total flying w ≡ 0
Holds (some p) w =
    (total flying w ≡ 1) × (y : Tcpv4Xfer) × (find_self w p ≡ some y) × (y.in_flight ≡ true)

-- The running length belongs to the head of the window.
abbrev pub AckedWithin : List Tcpv4Xfer → ℕ → Type 0
AckedWithin [] n = n ≡ 0
AckedWithin (x ∷ xs) n = n ≤ x.length

pub record Core (c : TxConn) : Type 0 where
  pub counted : c.tx_count ≡ length c.tx_queue + length c.tx_window
  pub sized : c.tx_bytes ≡ total (λ x. x.length) c.tx_queue + total (λ x. x.length) c.tx_window
  pub busy : c.tx_active ≡ not (c.tx_count == 0)
  pub distinct : (p : ℕ) → total (is_at p) c.tx_queue + total (is_at p) c.tx_window ≤ 1
  pub waiting : All IsWaiting c.tx_queue
  pub live : All IsLive c.tx_window
  pub acked : AckedWithin c.tx_window c.tx_acked_len
  pub kept :
      (b : ℕ)
      → count b c.taken
        ≡ total (carries b) c.tx_queue + total (carries b) c.tx_window + count_reported b c.reported

pub record Inv (c : TxConn) : Type 0 where
  pub core : Core c
  pub holds : Holds c.sending c.tx_window

-- A write to the object at `x.self`, whose contents were `y`.
pub record IsWrite (c : TxConn) (x y : Tcpv4Xfer) : Type 0 where
  pub found : find_self c.tx_window x.self ≡ some y
  pub bundle : x.bundle ≡ y.bundle
  pub size : x.length ≡ y.length

IsLive-remove : (p : ℕ) (xs : List Tcpv4Xfer) → All IsLive xs → All IsLive (remove p xs)
IsLive-remove p [] a = tt
IsLive-remove p (x ∷ xs) a = ground (arith, IsLive-remove p xs a.1)

IsLive-store :
    (x : Tcpv4Xfer) (xs : List Tcpv4Xfer) → IsLive x → All IsLive xs → All IsLive (store x xs)
unfolding store
IsLive-store x [] l a = tt
IsLive-store x (z ∷ xs) l a = ground (arith, IsLive-store x xs l a.1)

acked-store :
    (xs : List Tcpv4Xfer) (x y : Tcpv4Xfer) (n : ℕ)
    → find_self xs x.self ≡ some y
    → x.length ≡ y.length
    → AckedWithin xs n
    → AckedWithin (store x xs) n
unfolding store find_self
acked-store [] x y n e s h = h
acked-store (z ∷ xs) x y n e s h = ground arith

acked-remove :
    (xs : List Tcpv4Xfer) (p n : ℕ)
    → AckedWithin xs n
    → AckedWithin (remove p xs) (if is_head xs p then 0 else n)
acked-remove [] p n h = h
acked-remove (x ∷ []) p n h = ground arith
acked-remove (x ∷ z ∷ xs) p n h = ground arith

abbrev pub finished : Tcpv4Xfer → Bool
finished x = not (x.in_flight || (not x.acked && not x.refused))

abbrev written : TxConn → Tcpv4Xfer → TxConn
written c x = record c { tx_window = store x c.tx_window }

abbrev retired : TxConn → Tcpv4Xfer → TxConn
retired c x = record c {
  tx_window = remove x.self c.tx_window;
  tx_count = c.tx_count - 1;
  tx_bytes = c.tx_bytes - x.length;
  tx_active = not (c.tx_count - 1 == 0);
  tx_acked_len = if is_head c.tx_window x.self then 0 else c.tx_acked_len;
  reported = (x.bundle, xfer_succeeded x) ∷ c.reported;
}

pub settle_unfinished : (c : TxConn) (x : Tcpv4Xfer) → finished x ≡ false → settle c x ≡ written c x
unfolding settle tcpv4_tx_finished
settle_unfinished c x e = ground arith

unlinked :
    (c : TxConn) (x y : Tcpv4Xfer)
    → IsWrite c x y
    → tx_unlink (store x c.tx_window) x.self ≡ some (remove x.self c.tx_window)
unlinked c x y w =
    tx_unlink-remove (store x c.tx_window) x.self x (find_self-store c.tx_window x y w.found)
    ∙ ap some (remove-store c.tx_window x)

pub settle-finished :
    (c : TxConn) (x y : Tcpv4Xfer) → IsWrite c x y → finished x ≡ true → settle c x ≡ retired c x
unfolding settle tcpv4_tx_finished
settle-finished c x y w e = ground (arith, unlinked c x y w, is_head-store c.tx_window x x.self)

written-Core :
    (c : TxConn) (x y : Tcpv4Xfer)
    → Core c
    → IsWrite c x y
    → finished x ≡ false
    → Core (written c x)
written-Core c x y v w e = record {
  counted = omega (arith, v.counted, length-store c.tx_window x);
  sized = omega (arith, v.sized, w.size, total-store (λ z. z.length) c.tx_window x y w.found);
  busy = v.busy;
  distinct = λ p. omega (
    arith,
    v.distinct p,
    total-store (is_at p) c.tx_window x y w.found,
    ap (λ a. one_if (a == p)) (find_self-self c.tx_window x.self y w.found),
  );
  waiting = v.waiting;
  live = IsLive-store x c.tx_window (ground arith) v.live;
  acked = acked-store c.tx_window x y c.tx_acked_len w.found w.size v.acked;
  kept = λ b. omega (
    arith,
    v.kept b,
    total-store (carries b) c.tx_window x y w.found,
    ap (λ a. one_if (a == b)) w.bundle,
  );
}

retired-Core : (c : TxConn) (x y : Tcpv4Xfer) → Core c → IsWrite c x y → Core (retired c x)
retired-Core c x y v w = record {
  counted = omega (arith, v.counted, length-remove c.tx_window x.self y w.found);
  sized = omega (arith, v.sized, w.size, total-remove (λ z. z.length) c.tx_window x.self y w.found);
  busy = refl;
  distinct = λ p. omega (arith, v.distinct p, total-remove (is_at p) c.tx_window x.self y w.found);
  waiting = v.waiting;
  live = IsLive-remove x.self c.tx_window v.live;
  acked = acked-remove c.tx_window x.self c.tx_acked_len v.acked;
  kept = λ b. omega (
    arith,
    v.kept b,
    total-remove (carries b) c.tx_window x.self y w.found,
    ap (λ a. one_if (a == b)) w.bundle,
  );
}

-- A write and the retirement that may follow keep all but the hold of the transmit thread.
pub settle-Core : (c : TxConn) (x y : Tcpv4Xfer) → Core c → IsWrite c x y → Core (settle c x)
settle-Core c x y v w = elim (Bool-cases (finished x)) [
  | inl e ↦ subst Core (sym (settle-finished c x y w e)) (retired-Core c x y v w)
  | inr e ↦ subst Core (sym (settle_unfinished c x e)) (written-Core c x y v w e)
]

store-Holds :
    (xs : List Tcpv4Xfer) (x y : Tcpv4Xfer) (s : Option ℕ)
    → find_self xs x.self ≡ some y
    → x.in_flight ≡ y.in_flight
    → Holds s xs
    → Holds s (store x xs)
store-Holds xs x y none f e h = omega (arith, h, total-store flying xs x y f, ap one_if e)
store-Holds xs x y (some p) f e (n, z, g, t) = elim (Bool-cases (x.self == p)) [
  | inl same ↦ (
    omega (arith, n, total-store flying xs x y f, ap one_if e),
    x,
    ground (arith, find_self-store xs x y f, same),
    ground (arith, f, g, t, e, same),
  )
  | inr other ↦ (
    omega (arith, n, total-store flying xs x y f, ap one_if e),
    z,
    find_self-store_other xs x p (λ q. ground (arith, other)) ∙ g,
    t,
  )
]

remove-Holds :
    (xs : List Tcpv4Xfer) (p : ℕ) (y : Tcpv4Xfer) (s : Option ℕ)
    → find_self xs p ≡ some y
    → y.in_flight ≡ false
    → Holds s xs
    → Holds s (remove p xs)
remove-Holds xs p y none f e h = omega (arith, h, total-remove flying xs p y f, ap one_if e)
remove-Holds xs p y (some q) f e (n, z, g, t) = (
  omega (arith, n, total-remove flying xs p y f, ap one_if e),
  z,
  find_self-remove_other xs p q (λ same. ground (arith, f, g, e, t)) ∙ g,
  t,
)

-- So do they keep the hold, for a write that leaves `in_flight` alone.
pub settle-Inv :
    (c : TxConn) (x y : Tcpv4Xfer)
    → Inv c
    → IsWrite c x y
    → x.in_flight ≡ y.in_flight
    → Inv (settle c x)
settle-Inv c x y v w e = record {
  core = settle-Core c x y v.core w;
  holds = elim (Bool-cases (finished x)) [
    | inl f ↦
        subst (λ d. Holds d.sending d.tx_window) (sym (settle-finished c x y w f))
          (remove-Holds c.tx_window x.self y c.sending w.found (ground arith) v.holds)
    | inr f ↦
        subst (λ d. Holds d.sending d.tx_window) (sym (settle_unfinished c x f))
          (store-Holds c.tx_window x y c.sending w.found e v.holds)
  ];
}

-- The transmit thread lets go of the transfer that it holds.
pub release-Inv :
    (c : TxConn) (x y : Tcpv4Xfer)
    → Core c
    → IsWrite c x y
    → c.sending ≡ none
    → total flying c.tx_window ≡ 1
    → y.in_flight ≡ true
    → x.in_flight ≡ false
    → Inv (settle c x)
release-Inv c x y v w s n t e = record {
  core = settle-Core c x y v w;
  holds = elim (Bool-cases (finished x)) [
    | inl f ↦
        subst (λ d. Holds d.sending d.tx_window) (sym (settle-finished c x y w f))
          (subst (λ a. Holds a (remove x.self c.tx_window)) (sym s)
            (omega (arith, n, total-remove flying c.tx_window x.self y w.found, ap one_if t)))
    | inr f ↦
        subst (λ d. Holds d.sending d.tx_window) (sym (settle_unfinished c x f))
          (subst (λ a. Holds a (store x c.tx_window)) (sym s)
            (omega
              (arith, n, total-store flying c.tx_window x y w.found, ap one_if t, ap one_if e)))
  ];
}
