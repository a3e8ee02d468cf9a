-- ===== src/Claims/Rows.antt =====
-- Lookups in the table of leases of src/mirror.ts, under the statements that change it.
use front_desk_scheduler.Base.{
  ℕ, any, ◌≡◌, refl, sym, ap, ◌∙◌, String, Bool, true, false, ◌&&◌, not, Option, none, some, List,
  [], ◌∷◌, ◌++◌, filterb, find, ◌=ₛ◌, =ₛ_iff, if◌then◌else◌, arith, Bool-cases, inl, inr,
}
use front_desk_scheduler.Claims.{Lease, ItemRow, is_known, lease_live, lease_of, is_of, names}

pub lease_of-append :
    (k : String) (ls : List Lease) (l m : Lease)
    → lease_of k ls ≡ some m
    → lease_of k (ls ++ (l ∷ [])) ≡ some m
lease_of-append k [] l m h = ground (arith, h)
lease_of-append k (x ∷ ls) l m h = elim (Bool-cases (x.item_id =ₛ k)) [
  | inl e ↦ rw e (sym (rw e refl) ∙ h)
  | inr e ↦ rw e (lease_of-append k ls l m (sym (rw e refl) ∙ h))
]

abbrev is_live_at : ℕ → Option Lease → Bool
is_live_at now none = false
is_live_at now (some l) = lease_live now l

pub lease_of-live :
    (now : ℕ) (k : String) (ls : List Lease) (m : Lease)
    → lease_of k ls ≡ some m
    → lease_live now m ≡ true
    → lease_of k (filterb (lease_live now) ls) ≡ some m
lease_of-live now k [] m h e = h
lease_of-live now k (x ∷ ls) m h e = elim (Bool-cases (x.item_id =ₛ k)) [
  | inl f ↦
      let same : some x ≡ some m = sym (rw f refl) ∙ h in
      let live : lease_live now x ≡ true = ap (is_live_at now) same ∙ e in rw (live, f) same
  | inr f ↦
      let rest = lease_of-live now k ls m (sym (rw f refl) ∙ h) e in
      elim (Bool-cases (lease_live now x)) [ inl g ↦ rw (g, f) rest | inr g ↦ rw g rest ]
]

pub lease_of-appended :
    (ls : List Lease) (l : Lease) (k : String)
    → lease_of k ls ≡ none
    → lease_of k (ls ++ (l ∷ [])) ≡ (if l.item_id =ₛ k then some l else none)
lease_of-appended [] l k h = refl
lease_of-appended (x ∷ ls) l k h = elim (Bool-cases (x.item_id =ₛ k)) [
  | inl e ↦ let f : some x ≡ none = sym (rw e refl) ∙ h in ground (arith, f)
  | inr e ↦ rw e (lease_of-appended ls l k (sym (rw e refl) ∙ h))
]

pub find-filterb :
    (p q : Lease → Bool) (ls : List Lease) → find p (filterb q ls) ≡ find (λ l. p l && q l) ls
find-filterb p q [] = refl
find-filterb p q (l ∷ ls) = elim (Bool-cases (q l)) [
  | inl e ↦ elim (Bool-cases (p l)) [
    | inl f ↦ rw (e, f) refl
    | inr f ↦ rw (e, f) (find-filterb p q ls)
  ]
  | inr e ↦ elim (Bool-cases (p l)) [
    | inl f ↦ rw (e, f) (find-filterb p q ls)
    | inr f ↦ rw (e, f) (find-filterb p q ls)
  ]
]

pub is_known-find :
    (id : String) (is : List ItemRow)
    → is_known (find (λ i. i.item_id =ₛ id) is) ≡ any (λ i. i.item_id =ₛ id) is
is_known-find id [] = refl
is_known-find id (i ∷ is) = elim (Bool-cases (i.item_id =ₛ id)) [
  | inl e ↦ rw e refl
  | inr e ↦ rw e (is_known-find id is)
]

pub lease_of-released :
    (id agent k : String) (ls : List Lease) (l : Lease)
    → lease_of k ls ≡ some l
    → ((k =ₛ id) && (l.agent =ₛ agent)) ≡ false
    → lease_of k (filterb (λ x. not (is_of id agent x.item_id x.agent)) ls) ≡ some l
lease_of-released id agent k [] l h n = h
lease_of-released id agent k (x ∷ ls) l h n = elim (Bool-cases (x.item_id =ₛ k)) [
  | inl e ↦
      let same : some x ≡ some l = sym (rw e refl) ∙ h in
      let item = (=ₛ_iff x.item_id k).0 e in
      let stays : is_of id agent x.item_id x.agent ≡ false =
        ap (λ j. (j =ₛ id) && (x.agent =ₛ agent)) item
        ∙ ap (λ o. (k =ₛ id) && names agent o) same
        ∙ n in
      rw (stays, e) same
  | inr e ↦
      let rest = lease_of-released id agent k ls l (sym (rw e refl) ∙ h) n in
      elim (Bool-cases (is_of id agent x.item_id x.agent)) [
        | inl f ↦ rw f rest
        | inr f ↦ rw (f, e) rest
      ]
]
