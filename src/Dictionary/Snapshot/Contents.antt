-- ===== src/Dictionary/Snapshot/Contents.antt =====
-- What a snapshot holds, and that the order of the rows does not matter.
use mathlib.Core.List.{Permᴰ, append-nil, append_assoc}
use mathlib.Core.List.Permᴰ
use emergency_contact.Prelude.{
  String, ◌≡◌, refl, ap, sym, ◌∙◌, true, false, Option, none, some, List, [], ◌∷◌, ◌++◌, arith,
  str_eq, eq_iff, if◌then◌else◌,
}
use emergency_contact.Python.Values.{Value, str, Fields, get, mem}
use emergency_contact.Python.Order.{text_lt, text_lt_asymm, text_ge_trans, text_antisymm}
use emergency_contact.Python.Sorting.{sort, sort-perm_eq}
use emergency_contact.Dictionary.Snapshot.{
  Snapshot, empty_snapshot, append_keyword, accept, collect, sort_all, to_snapshot,
}

-- The keyword that a row gives to a category.
pub keyword_for : String → Value → Value → Option String
keyword_for c (str category) (str keyword) =
    if str_eq category c then if str_eq keyword "" then none else some keyword else none
keyword_for c _ _ = none

pub prepend : Option String → List String → List String
prepend none ks = ks
prepend (some k) ks = k ∷ ks

-- The keywords that the rows give to a category, in the order of the rows.
pub keywords_in : String → List Fields → List String
unfolding prepend keyword_for
keywords_in c [] = []
keywords_in c (row ∷ rows) =
    prepend (keyword_for c (get "category" row) (get "keyword" row)) (keywords_in c rows)

prepend-perm :
    {o o' : Option String} {ks ks' : List String}
    → o ≡ o'
    → Permᴰ ks ks'
    → Permᴰ (prepend o ks) (prepend o' ks')
unfolding prepend
prepend-perm {o = none} {o' = none} e p = p
prepend-perm {o = none} {o' = some k} e p = absurd (ground arith)
prepend-perm {o = some k} {o' = none} e p = absurd (ground arith)
prepend-perm {o = some k} {o' = some k'} e p = let same : k ≡ k' = cc in Permᴰ.cons same p

swap_both :
    (o q : Option String) (ks : List String)
    → Permᴰ (prepend o (prepend q ks)) (prepend q (prepend o ks))
unfolding prepend
swap_both none q ks = Permᴰ.refl (prepend q ks)
swap_both (some k) none ks = Permᴰ.refl (k ∷ ks)
swap_both (some k) (some l) ks = Permᴰ.swap refl refl

prepend-swap :
    {o q o' q' : Option String}
    → o ≡ q'
    → q ≡ o'
    → (ks : List String) → Permᴰ (prepend o (prepend q ks)) (prepend o' (prepend q' ks))
prepend-swap {o = o} {q = q} e d ks = rw (sym e, sym d) (swap_both o q ks)

keywords_in-perm :
    (c : String) {rows rows' : List Fields}
    → Permᴰ rows rows'
    → Permᴰ (keywords_in c rows) (keywords_in c rows')
unfolding keywords_in prepend
keywords_in-perm c Permᴰ.nil = Permᴰ.nil
keywords_in-perm c (Permᴰ.cons {a = a} {b = b} e p) =
    prepend-perm (λ i. keyword_for c (get "category" (e i)) (get "keyword" (e i)))
      (keywords_in-perm c p)
keywords_in-perm c (Permᴰ.swap {a = a} {b = b} {l = l} e d) =
    prepend-swap (λ i. keyword_for c (get "category" (e i)) (get "keyword" (e i)))
      (λ i. keyword_for c (get "category" (d i)) (get "keyword" (d i))) (keywords_in c l)
keywords_in-perm c (Permᴰ.trans p q) = Permᴰ.trans (keywords_in-perm c p) (keywords_in-perm c q)

-- Only one of the three categories takes the keyword.
accept_safe :
    (v w : Value) (out : Snapshot) (ks : List String)
    → (accept v w out).safe ++ ks ≡ out.safe ++ prepend (keyword_for "SAFE" v w) ks
unfolding accept append_keyword keyword_for prepend mem
accept_safe (str c) (str k) out ks = ground (arith, append_assoc out.safe (k ∷ []) ks)
accept_safe _ _ out ks = refl

only : (c s t : String) → str_eq s t ≡ false → str_eq c s ≡ true → str_eq c t ≡ false
only c s t h e = rw ((eq_iff c s).0 e, h)

accept_injured :
    (v w : Value) (out : Snapshot) (ks : List String)
    → (accept v w out).injured ++ ks ≡ out.injured ++ prepend (keyword_for "INJURED" v w) ks
unfolding accept append_keyword keyword_for prepend mem
accept_injured (str c) (str k) out ks =
    ground (arith, append_assoc out.injured (k ∷ []) ks, only c "SAFE" "INJURED" refl)
accept_injured _ _ out ks = refl

accept_unavailable :
    (v w : Value) (out : Snapshot) (ks : List String)
    → (accept v w out).unavailable ++ ks
      ≡ out.unavailable ++ prepend (keyword_for "UNAVAILABLE" v w) ks
unfolding accept append_keyword keyword_for prepend mem
accept_unavailable (str c) (str k) out ks = ground (
  arith,
  append_assoc out.unavailable (k ∷ []) ks,
  only c "SAFE" "UNAVAILABLE" refl,
  only c "INJURED" "UNAVAILABLE" refl,
)
accept_unavailable _ _ out ks = refl

collect_safe :
    (rows : List Fields) (out : Snapshot)
    → (collect out rows).safe ≡ out.safe ++ keywords_in "SAFE" rows
unfolding collect keywords_in
collect_safe [] out = sym (append-nil out.safe)
collect_safe (row ∷ rows) out =
    collect_safe rows (accept (get "category" row) (get "keyword" row) out)
    ∙ accept_safe (get "category" row) (get "keyword" row) out (keywords_in "SAFE" rows)

collect_injured :
    (rows : List Fields) (out : Snapshot)
    → (collect out rows).injured ≡ out.injured ++ keywords_in "INJURED" rows
unfolding collect keywords_in
collect_injured [] out = sym (append-nil out.injured)
collect_injured (row ∷ rows) out =
    collect_injured rows (accept (get "category" row) (get "keyword" row) out)
    ∙ accept_injured (get "category" row) (get "keyword" row) out (keywords_in "INJURED" rows)

collect_unavailable :
    (rows : List Fields) (out : Snapshot)
    → (collect out rows).unavailable ≡ out.unavailable ++ keywords_in "UNAVAILABLE" rows
unfolding collect keywords_in
collect_unavailable [] out = sym (append-nil out.unavailable)
collect_unavailable (row ∷ rows) out =
    collect_unavailable rows (accept (get "category" row) (get "keyword" row) out)
    ∙ accept_unavailable (get "category" row) (get "keyword" row) out
        (keywords_in "UNAVAILABLE" rows)

-- Each category of the snapshot holds exactly the keywords that the rows give to it, each as often as
-- the rows do, in ascending order.
pub to_snapshot_contents :
    (rows : List Fields)
    → ((to_snapshot rows).safe ≡ sort text_lt (keywords_in "SAFE" rows))
      × ((to_snapshot rows).injured ≡ sort text_lt (keywords_in "INJURED" rows))
      × ((to_snapshot rows).unavailable ≡ sort text_lt (keywords_in "UNAVAILABLE" rows))
unfolding to_snapshot sort_all
to_snapshot_contents rows = (
  ap (sort text_lt) (collect_safe rows empty_snapshot),
  ap (sort text_lt) (collect_injured rows empty_snapshot),
  ap (sort text_lt) (collect_unavailable rows empty_snapshot),
)

sorted-perm :
    (c : String) {rows rows' : List Fields}
    → Permᴰ rows rows'
    → sort text_lt (keywords_in c rows) ≡ sort text_lt (keywords_in c rows')
sorted-perm c p =
    sort-perm_eq text_lt text_lt_asymm text_ge_trans text_antisymm (keywords_in-perm c p)

-- The order in which the rows arrive does not matter to the snapshot.
pub to_snapshot-perm :
    (rows rows' : List Fields) → Permᴰ rows rows' → to_snapshot rows ≡ to_snapshot rows'
to_snapshot-perm rows rows' p =
    let (s, j, u) = to_snapshot_contents rows in
    let (s', j', u') = to_snapshot_contents rows' in
    λ i. record {
      safe = (s ∙ sorted-perm "SAFE" p ∙ sym s') i;
      injured = (j ∙ sorted-perm "INJURED" p ∙ sym j') i;
      unavailable = (u ∙ sorted-perm "UNAVAILABLE" p ∙ sym u') i;
    }
