-- ===== src/Draft/Ids.antt =====
-- The ids of a draft's rows.
use jumpway.Prelude.{
  All, ℕ, suc, ◌≤◌, ◌<◌, List, [], ◌∷◌, ◌++◌, map, Text, ◌≡◌, refl, arith, Distinct, In, inl, inr,
}
use jumpway.Wire.{WayHop, Rule}
use jumpway.Way.{normalize_way}
use jumpway.Draft.{UrlDraft, HopDraft, RuleDraft, new_urls, new_hops, draft_from}

-- The numbers that come after `lo`, in order, up to `hi`.
abbrev Counts : ℕ → List ℕ → ℕ → Type 0
Counts lo [] hi = lo ≡ hi
Counts lo (i ∷ is) hi = (i ≡ suc lo) × Counts i is hi

Counts-append :
    (lo mid hi : ℕ) (is js : List ℕ) → Counts lo is mid → Counts mid js hi → Counts lo (is ++ js) hi
Counts-append lo mid hi [] js h k = rw h k
Counts-append lo mid hi (i ∷ is) js (e, h) k = (e, Counts-append i mid hi is js h k)

Counts-le : (lo hi : ℕ) (is : List ℕ) → Counts lo is hi → lo ≤ hi
Counts-le lo hi [] h = omega arith
Counts-le lo hi (i ∷ is) (e, h) = omega (arith, Counts-le i hi is h)

Counts-bounds : (lo hi a : ℕ) (is : List ℕ) → Counts lo is hi → In a is → (lo < a) × (a ≤ hi)
Counts-bounds lo hi a [] h m = absurd m
Counts-bounds lo hi a (i ∷ is) (e, h) (inl q) = (omega arith, omega (arith, Counts-le i hi is h))
Counts-bounds lo hi a (i ∷ is) (e, h) (inr m) =
    let (l, r) = Counts-bounds i hi a is h m in (omega arith, r)

Counts-Distinct : (lo hi : ℕ) (is : List ℕ) → Counts lo is hi → Distinct is
Counts-Distinct lo hi [] h = tt
Counts-Distinct lo hi (i ∷ is) (e, h) =
    (λ m. absurd (omega (arith, Counts-bounds i hi i is h m)), Counts-Distinct i hi is h)

abbrev url_ids : List UrlDraft → List ℕ
url_ids urls = map (λ (u : UrlDraft). u.id) urls

abbrev hop_ids : List HopDraft → List ℕ
hop_ids [] = []
hop_ids (h ∷ hops) = h.id ∷ (url_ids h.urls ++ hop_ids hops)

-- The ids of all rows of the two ways of a draft.
abbrev pub row_ids : RuleDraft → List ℕ
row_ids d = hop_ids d.listen.way ++ hop_ids d.forward_way

new_urls-Counts :
    (seq : ℕ) (values : List Text)
    → Counts seq (url_ids (new_urls seq values).0) (new_urls seq values).1
unfolding new_urls
new_urls-Counts seq [] = refl
new_urls-Counts seq (v ∷ values) = (refl, new_urls-Counts (suc seq) values)

new_hops-Counts :
    (seq : ℕ) (hops : List WayHop)
    → Counts seq (hop_ids (new_hops seq hops).0) (new_hops seq hops).1
unfolding new_hops
new_hops-Counts seq [] = refl
new_hops-Counts seq (h ∷ hops) =
    let mid = (new_urls (suc seq) h.lb).1 in
    (
      refl,
      Counts-append (suc seq) mid _ _ _ (new_urls-Counts (suc seq) h.lb) (new_hops-Counts mid hops),
    )

All-elements : {P : ℕ → Type 0} (xs : List ℕ) → ((a : ℕ) → In a xs → P a) → All P xs
All-elements [] h = tt
All-elements (x ∷ xs) h = (h x (inl refl), All-elements xs (λ a m. h a (inr m)))

-- The rows of a draft have ids of their own, all above the counter before and up to the counter
-- after; so no two rows of this draft and none of an earlier one share an id.
draft_from-row_ids :
    (seq : ℕ) (r : Rule)
    → Distinct (row_ids (draft_from seq r).0)
      × All (λ a. (seq < a) × (a ≤ (draft_from seq r).1)) (row_ids (draft_from seq r).0)
unfolding draft_from
draft_from-row_ids seq r =
    let listen_hops = normalize_way r.listen.way in
    let mid = (new_hops seq listen_hops).1 in
    let counts =
      Counts-append seq mid _ _ _ (new_hops-Counts seq listen_hops)
        (new_hops-Counts mid (normalize_way r.forward.way)) in
    (Counts-Distinct seq _ _ counts, All-elements _ (λ a m. Counts-bounds seq _ a _ counts m))
