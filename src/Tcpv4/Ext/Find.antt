-- ===== src/Tcpv4/Ext/Find.antt =====
-- Looking for the Transfer Length item of CLA/tcpv4/src/tcpv4msg.c in a list of extension items.
use ion_dtn_contrib.Prelude.{
  ℕ, zero, suc, ◌+◌, ◌-◌, ◌*◌, ◌/◌, ◌%◌, ◌^◌, ◌≤◌, ◌<◌, ◌≡◌, refl, ap, ◌∙◌, false, List, [], ◌∷◌,
  ◌++◌, append-nil, append_assoc, none, some, All, All-append, All-append_front, length,
  length-append, length-drop, drop, drop-drop, drop-length_append, pos, minus_one, bit_or, arith,
}
use ion_dtn_contrib.Prelude.Bits.{bit_or-shifted}
use native.Mathlib.Nat.{pow-suc, zero-add}
use mathlib.Core.Path.{subst}
use ion_dtn_contrib.Wire.Size.{be, IsByte}
use ion_dtn_contrib.Wire.Octets.{be-IsByte}
use ion_dtn_contrib.Wire.Pointer.{octets, IsBuffer}
use ion_dtn_contrib.Wire.Writer.Laws.{
  Appends-bind, Appends-Encodes, w_u8-Appends, w_u16-Appends, w_u64-Appends,
}
use ion_dtn_contrib.Wire.Reader.Laws.{IsValid}
use ion_dtn_contrib.Tcpv4.Msg.Types.{Tcpv4ExtItem}
use ion_dtn_contrib.Tcpv4.Ext.{
  next_ext_item, be_fold, be_value, is_xfer_length, find_round, find_loop, find_xfer_length,
  encode_xfer_length_ext,
}
use ion_dtn_contrib.Tcpv4.Ext.Walk.{
  item_layout, IsExtItem, item_bytes, at_off, next_ext_item_end, next_ext_item_whole,
  next_ext_item_cut,
}

be_fold-append :
    (xs : List ℕ) (n b : ℕ) → be_fold n (xs ++ (b ∷ [])) ≡ bit_or (be_fold n xs * 2 ^ 8 % 2 ^ 64) b
unfolding be_fold
be_fold-append [] n b = refl
be_fold-append (x ∷ xs) n b = be_fold-append xs _ b

-- The loop over the value's octets reads the number that they stand for.
be_fold-be : (k v : ℕ) → v < 256 ^ k → v < 2 ^ 64 → be_fold 0 (be k v) ≡ v
be_fold-be zero v h w = unfold be_fold in omega arith
be_fold-be (suc k) v h w =
    let high : v / 256 < 256 ^ k = omega (arith, h, pow-suc 256 k) in
    let wide : v / 256 * 2 ^ 8 % 2 ^ 64 ≡ v / 256 * 2 ^ 8 = omega arith in
    be_fold-append (be k (v / 256)) 0 (v % 256)
    ∙ rw (be_fold-be k (v / 256) high (omega arith), wide)
        (bit_or-shifted 8 (v / 256) (v % 256) (omega arith) ∙ omega arith)

abbrev pub items_layout : List Tcpv4ExtItem → List ℕ
items_layout [] = []
items_layout (m ∷ ms) = item_layout m ++ items_layout ms

-- A well-formed item that is no Transfer Length.
abbrev pub IsOther : Tcpv4ExtItem → Type 0
IsOther m = IsExtItem m × (is_xfer_length m ≡ false)

items_bytes : (ms : List Tcpv4ExtItem) → All IsOther ms → All IsByte (items_layout ms)
items_bytes [] a = tt
items_bytes (m ∷ ms) a =
    All-append IsByte (item_layout m) (items_layout ms) (item_bytes m a.0.0) (items_bytes ms a.1)

pub length-items_layout : (ms : List Tcpv4ExtItem) → length ms ≤ length (items_layout ms)
length-items_layout [] = omega arith
length-items_layout (m ∷ ms) =
    omega (arith, length-items_layout ms, length-append (octets m.value) (items_layout ms))

-- The octets at an offset that is `n` further on.
pub step_over :
    (buf : List ℕ) (off n : ℕ) (xs ys : List ℕ)
    → n ≡ length xs
    → drop off buf ≡ xs ++ ys
    → drop (off + n) buf ≡ ys
step_over buf off n xs ys h e =
    drop-drop off n (off + n) buf refl ∙ rw (e, h) (drop-length_append xs ys)

pub over_IsValid :
    (buf : List ℕ) (off n : ℕ) (xs ys : List ℕ)
    → n ≡ length xs
    → drop off buf ≡ xs ++ ys
    → IsValid (at_off buf off)
    → IsValid (at_off buf (off + n))
over_IsValid buf off n xs ys h e v = record {
  within = omega (arith, v.within, h, ap length e, length-drop off buf, length-append xs ys);
  small = v.small;
  octets = v.octets;
}

past_round :
    (fuel : ℕ) (buf : List ℕ) (off : ℕ) (m : Tcpv4ExtItem) {n : ℕ}
    → next_ext_item buf off ≡ record { rc = pos 1; off = n; item = some m }
    → is_xfer_length m ≡ false
    → find_loop (suc fuel) buf off ≡ find_loop fuel buf n
unfolding find_loop find_round
past_round fuel buf off m run e = rw (run, e)

-- Other items are passed over, one round for each.
find_past :
    (ms : List Tcpv4ExtItem) (buf : List ℕ) (off fuel more : ℕ) (rest : List ℕ)
    → All IsOther ms
    → IsValid (at_off buf off)
    → drop off buf ≡ items_layout ms ++ rest
    → fuel ≡ length ms + more
    → find_loop fuel buf off ≡ find_loop more buf (off + length (items_layout ms))
find_past [] buf off fuel more rest a v e h =
    let z : off + 0 ≡ off = omega arith in let f : fuel ≡ more = omega (arith, h) in rw (z, f)
find_past (m ∷ ms) buf off zero more rest a v e h = absurd (omega arith)
find_past (m ∷ ms) buf off (suc fuel) more rest a v e h =
    let split = e ∙ append_assoc (item_layout m) (items_layout ms) rest in
    let n = length (item_layout m) in
    let run = next_ext_item_whole buf off m (items_layout ms ++ rest) a.0.0 v split in
    let next =
      find_past ms buf (off + n) fuel more rest a.1
        (over_IsValid buf off n (item_layout m) _ refl split v)
        (step_over buf off n (item_layout m) _ refl split) (omega (arith, h)) in
    let past : find_loop (suc fuel) buf off ≡ find_loop fuel buf (off + n) =
      past_round fuel buf off m run a.0.1 in
    past
    ∙ next
    ∙ ap (find_loop more buf) (omega (arith, length-append (item_layout m) (items_layout ms)))

abbrev pub xfer_length_item : ℕ → Tcpv4ExtItem
xfer_length_item v = record { flags = 0; type = 1; length = 8; value = some (be 8 v) }

pub xfer_length_item-IsExtItem : (v : ℕ) → IsExtItem (xfer_length_item v)
xfer_length_item-IsExtItem v = record {
  flags = omega arith;
  type = omega arith;
  length = omega arith;
  value = record { set = refl; size = refl; bytes = be-IsByte 8 v };
}

-- The item that the encoder writes.
pub encode_xfer_length_ext_lem :
    (size v : ℕ)
    → 13 ≤ size
    → size < 2 ^ 31
    → encode_xfer_length_ext size v ≡ (pos 13, item_layout (xfer_length_item v))
unfolding encode_xfer_length_ext
encode_xfer_length_ext_lem size v fits small =
    (Appends-Encodes size _ _ small (
        Appends-bind _ _ _ _ (w_u8-Appends 0) (
          Appends-bind _ _ _ _ (w_u16-Appends 1)
            (Appends-bind _ _ _ _ (w_u16-Appends 8) (w_u64-Appends v))))).written
      fits

pub start : (buf : List ℕ) → IsBuffer buf → IsValid (at_off buf 0)
start buf b = record { within = omega arith; small = b.small; octets = b.bytes }

-- After the other items of a list, the loop still has fuel for a round.
past_others :
    (ms : List Tcpv4ExtItem) (rest : List ℕ)
    → All IsOther ms
    → IsBuffer (items_layout ms ++ rest)
    → (fuel : ℕ) × (find_xfer_length (items_layout ms ++ rest)
        ≡ find_loop (suc fuel) (items_layout ms ++ rest) (length (items_layout ms)))
unfolding find_xfer_length
past_others ms rest a b =
    let buf = items_layout ms ++ rest in
    let fuel = length buf - length ms in
    let enough : suc (length buf) ≡ length ms + suc fuel =
      omega (arith, length-items_layout ms, length-append (items_layout ms) rest) in
    (
      fuel,
      find_past ms buf 0 (suc (length buf)) (suc fuel) rest a (start buf b) refl enough
          ∙ ap (find_loop (suc fuel) buf) (zero-add _),
    )

behind_IsValid :
    (ms : List Tcpv4ExtItem) (rest : List ℕ)
    → IsBuffer (items_layout ms ++ rest)
    → IsValid (at_off (items_layout ms ++ rest) (length (items_layout ms)))
behind_IsValid ms rest b =
    let buf = items_layout ms ++ rest in
    subst (λ k. IsValid (at_off buf k)) (zero-add _)
      (over_IsValid buf 0 _ (items_layout ms) rest refl refl (start buf b))

-- Behind any other items, the Transfer Length item that the encoder writes is found, with its value.
pub find_xfer_length-encode :
    (ms : List Tcpv4ExtItem) (size v : ℕ) (rest : List ℕ)
    → All IsOther ms
    → v < 2 ^ 64
    → 13 ≤ size
    → size < 2 ^ 31
    → All IsByte rest
    → length (items_layout ms) + 13 + length rest < 2 ^ 31
    → find_xfer_length (items_layout ms ++ ((encode_xfer_length_ext size v).1 ++ rest))
      ≡ some (pos 1, some v)
unfolding find_loop find_round be_value
find_xfer_length-encode ms size v rest a wide fits small b room =
    let m = xfer_length_item v in
    let n = length (items_layout ms) in
    let buf = items_layout ms ++ (item_layout m ++ rest) in
    let buffer : IsBuffer buf = record {
      bytes =
          All-append IsByte (items_layout ms) (item_layout m ++ rest) (items_bytes ms a) (
            All-append IsByte (item_layout m) rest (item_bytes m (xfer_length_item-IsExtItem v)) b);
      small = omega (arith, room, length-append (items_layout ms) (item_layout m ++ rest));
    } in
    let (fuel, past) = past_others ms (item_layout m ++ rest) a buffer in
    let valid = behind_IsValid ms (item_layout m ++ rest) buffer in
    let here = drop-length_append (items_layout ms) (item_layout m ++ rest) in
    let run = next_ext_item_whole buf n m rest (xfer_length_item-IsExtItem v) valid here in
    rw (encode_xfer_length_ext_lem size v fits small)
      (past ∙ rw run (ap (λ k. some (pos 1, some k)) (be_fold-be 8 v (omega arith) wide)))

-- Of other items only, the list has no Transfer Length.
pub find_xfer_length_absent :
    (ms : List Tcpv4ExtItem)
    → All IsOther ms
    → length (items_layout ms) < 2 ^ 31
    → find_xfer_length (items_layout ms) ≡ some (pos 0, none)
unfolding find_loop find_round
find_xfer_length_absent ms a small =
    let buf = items_layout ms in
    let buffer : IsBuffer (buf ++ []) =
      rw append-nil (record { bytes = items_bytes ms a; small = small }) in
    let (fuel, past) = past_others ms [] a buffer in
    rw append-nil at past ∙ rw (next_ext_item_end buf)

-- A list whose last item is cut is malformed, if no Transfer Length stands before.
pub find_xfer_length_malformed :
    (ms : List Tcpv4ExtItem) (m : Tcpv4ExtItem) (y : ℕ) (front : List ℕ) (x : ℕ) (back : List ℕ)
    → All IsOther ms
    → IsExtItem m
    → item_layout m ≡ (y ∷ front) ++ (x ∷ back)
    → length (items_layout ms) + 2 * length (item_layout m) < 2 ^ 31
    → find_xfer_length (items_layout ms ++ (y ∷ front)) ≡ some (minus_one, none)
unfolding find_loop find_round
find_xfer_length_malformed ms m y front x back a v e small =
    let part = y ∷ front in
    let buf = items_layout ms ++ part in
    let len : length part + length (x ∷ back) ≡ length (item_layout m) =
      omega (arith, ap length e, length-append part (x ∷ back)) in
    let whole : All IsByte (part ++ (x ∷ back)) = subst (All IsByte) e (item_bytes m v) in
    let buffer : IsBuffer buf = record {
      bytes =
          All-append IsByte (items_layout ms) part (items_bytes ms a)
            (All-append_front IsByte part (x ∷ back) whole);
      small = omega (arith, small, len, length-append (items_layout ms) part);
    } in
    let (fuel, past) = past_others ms part a buffer in
    let room : length buf + length (item_layout m) < 2 ^ 31 =
      omega (arith, small, len, length-append (items_layout ms) part) in
    let cut =
      next_ext_item_cut buf _ m y front back x v (behind_IsValid ms part buffer) room
        (drop-length_append (items_layout ms) part) e in
    past ∙ rw cut.0
