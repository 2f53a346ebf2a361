-- ===== src/HopEditor/Ids.antt =====
-- The ids that name the rows, and the errors under them.
use jumpway.Prelude.{
  ℕ, zero, suc, ◌+◌, ◌≤◌, ◌<◌, List, [], ◌∷◌, ◌++◌, none, some, Text, nat_beq, if◌then◌else◌, ◌≡◌,
  refl, arith,
}
use jumpway.Draft.{UrlDraft, HopDraft, new_url, new_hop}
use jumpway.HopEditor.{
  HopEditor, remove_at, change_at, swap_at, clear_error, add_hop, remove_hop, move_up, move_down,
  push_url, add_url, drop_url, remove_url, write_url, write_hop, set_url, open_builder, HopEvent,
  adds_hop, removes_hop, moves_up, moves_down, adds_url, removes_url, types, builds, step, run,
}

abbrev one : ℕ → ℕ → ℕ
one i n = if nat_beq n i then 1 else 0

-- How often an id names a row.
abbrev pub url_count : ℕ → List UrlDraft → ℕ
url_count i [] = 0
url_count i (u ∷ urls) = one i u.id + url_count i urls

abbrev pub hop_count : ℕ → List HopDraft → ℕ
hop_count i [] = 0
hop_count i (h ∷ hops) = one i h.id + url_count i h.urls + hop_count i hops

-- No id names two rows, and those above the counter name none.
pub record IsNumbered (s : HopEditor) : Type 0 where
  pub single : (i : ℕ) → hop_count i s.hops ≤ 1
  pub free : (i : ℕ) → s.sequence < i → hop_count i s.hops ≡ 0

url_count-append :
    (i : ℕ) (us : List UrlDraft) (u : UrlDraft)
    → url_count i (us ++ u ∷ []) ≡ url_count i us + one i u.id
url_count-append i [] u = omega arith
url_count-append i (v ∷ us) u = omega (arith, url_count-append i us u)

hop_count-append :
    (i : ℕ) (hs : List HopDraft) (h : HopDraft)
    → hop_count i (hs ++ h ∷ []) ≡ hop_count i hs + (one i h.id + url_count i h.urls)
hop_count-append i [] h = omega arith
hop_count-append i (k ∷ hs) h = omega (arith, hop_count-append i hs h)

hop_count-remove : (i n : ℕ) (hs : List HopDraft) → hop_count i (remove_at n hs) ≤ hop_count i hs
hop_count-remove i n [] = omega arith
hop_count-remove i zero (h ∷ hs) = omega arith
hop_count-remove i (suc n) (h ∷ hs) = omega (arith, hop_count-remove i n hs)

url_count-remove : (i n : ℕ) (us : List UrlDraft) → url_count i (remove_at n us) ≤ url_count i us
url_count-remove i n [] = omega arith
url_count-remove i zero (u ∷ us) = omega arith
url_count-remove i (suc n) (u ∷ us) = omega (arith, url_count-remove i n us)

hop_count-swap : (i n : ℕ) (hs : List HopDraft) → hop_count i (swap_at n hs) ≡ hop_count i hs
hop_count-swap i n [] = refl
hop_count-swap i n (h ∷ []) = refl
hop_count-swap i zero (h ∷ k ∷ hs) = omega arith
hop_count-swap i (suc n) (h ∷ k ∷ hs) = omega (arith, hop_count-swap i n (k ∷ hs))

url_count-write :
    (i n : ℕ) (value : Text) (us : List UrlDraft)
    → url_count i (change_at n (write_url value) us) ≡ url_count i us
url_count-write i n value [] = refl
url_count-write i zero value (u ∷ us) = refl
url_count-write i (suc n) value (u ∷ us) = omega (arith, url_count-write i n value us)

-- A change of one hop that adds no more than `k` to the count of an id.
hop_count-change :
    (i k n : ℕ) (f : HopDraft → HopDraft) (hs : List HopDraft)
    → ((h : HopDraft)
        → one i (f h).id + url_count i (f h).urls ≤ (one i h.id + url_count i h.urls) + k)
    → hop_count i (change_at n f hs) ≤ hop_count i hs + k
hop_count-change i k n f [] g = omega arith
hop_count-change i k zero f (h ∷ hs) g = omega (arith, g h)
hop_count-change i k (suc n) f (h ∷ hs) g = omega (arith, hop_count-change i k n f hs g)

-- Where no id is named more often than before.
fewer :
    (s q : HopEditor)
    → ((i : ℕ) → hop_count i q.hops ≤ hop_count i s.hops)
    → q.sequence ≡ s.sequence
    → IsNumbered s
    → IsNumbered q
fewer s q f e h = record {
  single = λ i. omega (arith, f i, h.single i);
  free = λ i l. omega (arith, f i, h.free i (omega (arith, e, l)));
}

add_url-IsNumbered : (at : ℕ) (s : HopEditor) → IsNumbered s → IsNumbered (add_url at s)
unfolding add_url new_url
add_url-IsNumbered at s h =
    let url : UrlDraft = record { id = suc s.sequence; value = [] } in
    let more : (i : ℕ)
        → hop_count i (change_at at (push_url url) s.hops)
          ≤ hop_count i s.hops + one i (suc s.sequence) =
      λ i.
        hop_count-change i (one i (suc s.sequence)) at (push_url url) s.hops
          (λ k. omega (arith, url_count-append i k.urls url)) in
    record {
      single = λ i. ground (arith, more i, h.single i, h.free i);
      free = λ i l. ground (arith, more i, h.free i);
    }

add_hop-IsNumbered : (s : HopEditor) → IsNumbered s → IsNumbered (add_hop s)
unfolding add_hop new_hop
add_hop-IsNumbered s h = record {
  single = λ i.
      ground
        (arith, hop_count-append i s.hops (new_hop s.sequence ([] ∷ [])).0, h.single i, h.free i);
  free =
      λ i l. ground (arith, hop_count-append i s.hops (new_hop s.sequence ([] ∷ [])).0, h.free i);
}

set_url-IsNumbered :
    (at index id : ℕ) (value : Text) (s : HopEditor)
    → IsNumbered s
    → IsNumbered (set_url at index id value s)
unfolding set_url clear_error
set_url-IsNumbered at index id value s h =
    fewer s _
      (λ i. omega (
        arith,
        hop_count-change i 0 at (write_hop index value) s.hops
            (λ k. omega (arith, url_count-write i index value k.urls)),
      ))
      refl h

step-IsNumbered : (e : HopEvent) (s : HopEditor) → IsNumbered s → IsNumbered (step e s)
unfolding remove_hop move_up move_down remove_url open_builder
step-IsNumbered adds_hop s h = add_hop-IsNumbered s h
step-IsNumbered (removes_hop n) s h = fewer s _ (λ i. hop_count-remove i n s.hops) refl h
step-IsNumbered (moves_up zero) s h = h
step-IsNumbered (moves_up (suc n)) s h =
    fewer s _ (λ i. omega (arith, hop_count-swap i n s.hops)) refl h
step-IsNumbered (moves_down n) s h =
    fewer s _ (λ i. omega (arith, hop_count-swap i n s.hops)) refl h
step-IsNumbered (adds_url at) s h = add_url-IsNumbered at s h
step-IsNumbered (removes_url at n) s h =
    fewer s _
      (λ i. omega (
        arith,
        hop_count-change i 0 at (drop_url n) s.hops
            (λ k. omega (arith, url_count-remove i n k.urls)),
      ))
      refl h
step-IsNumbered (types at n id value) s h = set_url-IsNumbered at n id value s h
step-IsNumbered (builds at n id none) s h = h
step-IsNumbered (builds at n id (some result)) s h = set_url-IsNumbered at n id result s h

-- Whatever is added, removed, moved, typed or built, no id names two rows, and the ids above the counter
-- name none, if that is so at the start: an error stands at one row.
pub run-IsNumbered : (es : List HopEvent) (s : HopEditor) → IsNumbered s → IsNumbered (run es s)
run-IsNumbered [] s h = h
run-IsNumbered (e ∷ es) s h = run-IsNumbered es (step e s) (step-IsNumbered e s h)
