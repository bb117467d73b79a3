-- ===== src/Tcpv4/Rx/Outcome.antt =====
-- What holds of the value and of the state where a computation of Tcpv4.Rx.Conn succeeds, and of the
-- state where it fails.
use ion_dtn_contrib.Prelude.{
  ℕ, ltb, leb, ◌≤◌, ◌≡◌, length, length-take, Bool, true, false, if◌then◌else◌, List, Option, none,
  some, if_case, arith,
}
use ion_dtn_contrib.Tcpv4.Rx.Conn.{RxConn, Rx, give, ◌>>=◌, then_run, conn_recv}
use ion_dtn_contrib.Tcpv4.Rx.Keeps.{Keeps, Allows}
use ion_dtn_contrib.Tcpv4.Rx.Segment.{recv_if}

abbrev pub Outcome :
    {A : Type 0} → (A → RxConn → Type 0) → (RxConn → Type 0) → Option A × RxConn → Type 0
Outcome Q I (none, c) = I c
Outcome Q I (some a, c) = Q a c

module _ {A : Type 0} (Q : A → RxConn → Type 0) (I : RxConn → Type 0) where
  then_run-Outcome :
      {B : Type 0} (R : B → RxConn → Type 0) (f : A → Rx B) (r : Option A × RxConn)
      → Outcome Q I r
      → ((a : A) (d : RxConn) → Q a d → Outcome R I (f a d))
      → Outcome R I (then_run f r)
  then_run-Outcome R f (none, d) o k = o
  then_run-Outcome R f (some a, d) o k = k a d o

  pub bind-Outcome :
      {B : Type 0} (R : B → RxConn → Type 0) (m : Rx A) (f : A → Rx B) (c : RxConn)
      → Outcome Q I (m c)
      → ((a : A) (d : RxConn) → Q a d → Outcome R I (f a d))
      → Outcome R I ((m >>= f) c)
  unfolding ◌>>=◌
  bind-Outcome R m f c = then_run-Outcome R f (m c)

  -- What is promised of every end holds at the end.
  pub Outcome-end :
      (P : RxConn → Type 0) (r : Option A × RxConn)
      → Outcome Q I r
      → ((a : A) (d : RxConn) → Q a d → P d)
      → ((d : RxConn) → I d → P d)
      → P r.1
  Outcome-end P (none, d) o f g = g d o
  Outcome-end P (some a, d) o f g = f a d o

  pub Outcome-map :
      (R : A → RxConn → Type 0) (r : Option A × RxConn)
      → Outcome Q I r
      → ((a : A) (d : RxConn) → Q a d → R a d)
      → Outcome R I r
  Outcome-map R (none, d) o f = o
  Outcome-map R (some a, d) o f = f a d o

  pub if-Outcome :
      (b : Bool) (r s : Option A × RxConn)
      → (b ≡ true → Outcome Q I r)
      → (b ≡ false → Outcome Q I s)
      → Outcome Q I (if b then r else s)
  if-Outcome b r s = if_case (Outcome Q I) b r s

split-Outcome :
    {A : Type 0} (P : RxConn → Type 0) (r : Option A × RxConn) → P r.1 → Outcome (λ a d. P d) P r
split-Outcome P (none, d) p = p
split-Outcome P (some a, d) p = p

-- A predicate that is kept holds however the computation ends.
pub Keeps-Outcome :
    {A : Type 0} (P : RxConn → Type 0) (m : Rx A)
    → Keeps P m
    → (c : RxConn) → P c
    → Outcome (λ a d. P d) P (m c)
Keeps-Outcome P m k c p = split-Outcome P (m c) (k.kept c p)

-- No more octets than were asked for.
pub recv_if-Outcome :
    (P I : RxConn → Type 0) (n : ℕ) (c : RxConn)
    → Allows P
    → ((d : RxConn) → P d → I d)
    → P c
    → Outcome (λ got d. (length got ≤ n) × P d) I (recv_if n c)
unfolding conn_recv give
recv_if-Outcome P I n c a w p =
    if_case (λ (m : Rx (List ℕ)). Outcome (λ got d. (length got ≤ n) × P d) I (m c)) (ltb 0 n) _ _
      (λ e.
        if-Outcome (λ (got : List ℕ) d. (length got ≤ n) × P d) I (leb n (length c.input)) _ _
          (λ f. (omega (arith, length-take n c.input), a.read c n p)) (λ f. w _ (a.lost c p)))
      λ e. (omega arith, p)
