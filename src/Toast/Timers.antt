-- ===== src/Toast/Timers.antt =====
-- Which toasts have a timer.
use jumpway.Prelude.{
  ℕ, suc, ◌≤◌, ◌<◌, Bool, true, false, not, List, [], ◌∷◌, ◌++◌, map, Text, nat_beq, nat_beq_iff,
  leb, filter, if◌then◌else◌, ◌≡◌, inl, inr, refl, sym, ap, ◌∙◌, arith, All, In, Bool-cases,
  append-nil,
}
use jumpway.Toast.{
  ToastKind, success, info, warning, error, Toast, Timer, Toasts, no_toasts, is_toast, is_timer,
  dismiss, push, say, dismiss_all, clear, ToastEvent, says, dismisses, clears, expire, step, run,
}

abbrev toast_ids : List Toast → List ℕ
toast_ids ts = map (λ (t : Toast). t.id) ts

abbrev timer_ids : List Timer → List ℕ
timer_ids ts = map (λ (t : Timer). t.id) ts

-- The toasts that go by themselves: successes and notices, not warnings and errors.
abbrev pub goes : ToastKind → Bool
goes success = true
goes info = true
goes warning = false
goes error = false

abbrev pub expires : Toast → Bool
expires t = goes t.kind

-- Ids that grow, up to a bound.
abbrev IsRising : ℕ → List ℕ → ℕ → Type 0
IsRising lo [] hi = lo ≤ hi
IsRising lo (i ∷ is) hi = (lo < i) × IsRising i is hi

-- The ids are distinct and not above the counter, and exactly the toasts that go by themselves have a
-- timer, one each.
pub record IsTimed (s : Toasts) : Type 0 where
  pub rising : IsRising 0 (toast_ids s.list) s.sequence
  pub timed : timer_ids s.timers ≡ toast_ids (filter expires s.list)

IsRising-weaken : (k lo hi : ℕ) (is : List ℕ) → k ≤ lo → IsRising lo is hi → IsRising k is hi
IsRising-weaken k lo hi [] l h = omega arith
IsRising-weaken k lo hi (i ∷ is) l (p, h) = (omega arith, h)

IsRising-filter :
    (lo hi : ℕ) (p : Toast → Bool) (ts : List Toast)
    → IsRising lo (toast_ids ts) hi
    → IsRising lo (toast_ids (filter p ts)) hi
IsRising-filter lo hi p [] h = h
IsRising-filter lo hi p (t ∷ ts) (l, h) = elim (Bool-cases (p t)) [
  | inl e ↦ rw e (l, IsRising-filter t.id hi p ts h)
  | inr e ↦ rw e (IsRising-weaken lo t.id hi _ (omega arith) (IsRising-filter t.id hi p ts h))
]

IsRising-push :
    (lo hi : ℕ) (ts : List Toast) (t : Toast)
    → IsRising lo (toast_ids ts) hi
    → t.id ≡ suc hi
    → IsRising lo (toast_ids (ts ++ t ∷ [])) (suc hi)
IsRising-push lo hi [] t h e = (omega arith, omega arith)
IsRising-push lo hi (u ∷ ts) t (l, h) e = (l, IsRising-push u.id hi ts t h e)

timers_without :
    (id : ℕ) (ts : List Timer)
    → timer_ids (filter (λ t. not (is_timer id t)) ts)
      ≡ filter (λ i. not (nat_beq i id)) (timer_ids ts)
timers_without id [] = refl
timers_without id (t ∷ ts) = ground (arith, timers_without id ts)

toasts_without :
    (id : ℕ) (ts : List Toast)
    → filter (λ i. not (nat_beq i id)) (toast_ids (filter expires ts))
      ≡ toast_ids (filter expires (filter (λ t. not (is_toast id t)) ts))
toasts_without id [] = refl
toasts_without id (t ∷ ts) = ground (arith, toasts_without id ts)

dismiss-IsTimed : (id : ℕ) (s : Toasts) → IsTimed s → IsTimed (dismiss id s)
unfolding dismiss
dismiss-IsTimed id s h = record {
  rising = IsRising-filter 0 s.sequence (λ t. not (is_toast id t)) s.list h.rising;
  timed =
      timers_without id s.timers
      ∙ ap (filter (λ i. not (nat_beq i id))) h.timed
      ∙ toasts_without id s.list;
}

dismiss_all-IsTimed : (ids : List ℕ) (s : Toasts) → IsTimed s → IsTimed (dismiss_all ids s)
unfolding dismiss_all
dismiss_all-IsTimed [] s h = h
dismiss_all-IsTimed (id ∷ ids) s h = dismiss_all-IsTimed ids (dismiss id s) (dismiss-IsTimed id s h)

filter-append :
    {A : Type 0} (p : A → Bool) (xs ys : List A) → filter p (xs ++ ys) ≡ filter p xs ++ filter p ys
filter-append p [] ys = refl
filter-append p (x ∷ xs) ys = ground (arith, filter-append p xs ys)

map-append : {A B : Type 0} (f : A → B) (xs ys : List A) → map f (xs ++ ys) ≡ map f xs ++ map f ys
map-append f [] ys = refl
map-append f (x ∷ xs) ys = ap (f x ∷◌) (map-append f xs ys)

ids_push :
    (p : Toast → Bool) (ts : List Toast) (t : Toast)
    → toast_ids (filter p (ts ++ t ∷ []))
      ≡ toast_ids (filter p ts) ++ (if p t then t.id ∷ [] else [])
ids_push p [] t = ground arith
ids_push p (u ∷ ts) t = ground (arith, ids_push p ts t)

timer_ids_push :
    (ts : List Timer) (t : Timer) → timer_ids (ts ++ t ∷ []) ≡ timer_ids ts ++ t.id ∷ []
timer_ids_push [] t = refl
timer_ids_push (u ∷ ts) t = ap (u.id ∷◌) (timer_ids_push ts t)

say-timed :
    (kind : ToastKind) (message : Text) (now : ℕ) (s : Toasts)
    → IsTimed s
    → timer_ids (say kind message now s).timers
      ≡ toast_ids (filter expires (say kind message now s).list)
unfolding push
say-timed success message now s h =
    timer_ids_push s.timers _
    ∙ ap (λ is. is ++ suc s.sequence ∷ []) h.timed
    ∙ sym (ids_push expires s.list _)
say-timed info message now s h =
    timer_ids_push s.timers _
    ∙ ap (λ is. is ++ suc s.sequence ∷ []) h.timed
    ∙ sym (ids_push expires s.list _)
say-timed warning message now s h = h.timed ∙ sym (append-nil _) ∙ sym (ids_push expires s.list _)
say-timed error message now s h = h.timed ∙ sym (append-nil _) ∙ sym (ids_push expires s.list _)

say-IsTimed :
    (kind : ToastKind) (message : Text) (now : ℕ) (s : Toasts)
    → IsTimed s
    → IsTimed (say kind message now s)
unfolding push
say-IsTimed kind message now s h = record {
  rising = IsRising-push 0 s.sequence s.list _ h.rising refl;
  timed = say-timed kind message now s h;
}

timers_among :
    (id : ℕ) (ids : List ℕ) (ts : List Timer)
    → All (λ i. In i (id ∷ ids)) (timer_ids ts)
    → All (λ i. In i ids) (timer_ids (filter (λ t. not (is_timer id t)) ts))
timers_among id ids [] h = tt
timers_among id ids (t ∷ ts) (m, h) = elim (Bool-cases (is_timer id t)) [
  | inl same ↦ rw same (timers_among id ids ts h)
  | inr other ↦ rw other (elim m [
    | inl e ↦ absurd (ground (arith, nat_beq_iff t.id id))
    | inr k ↦ (k, timers_among id ids ts h)
  ])
]

no_timers : (ts : List Timer) → All (λ i. In i []) (timer_ids ts) → ts ≡ []
no_timers [] h = refl
no_timers (t ∷ ts) (m, h) = absurd m

timers_gone :
    (ids : List ℕ) (s : Toasts)
    → All (λ i. In i ids) (timer_ids s.timers)
    → (dismiss_all ids s).timers ≡ []
unfolding dismiss_all dismiss
timers_gone [] s h = no_timers s.timers h
timers_gone (id ∷ ids) s h = timers_gone ids (dismiss id s) (timers_among id ids s.timers h)

All-In : (is js : List ℕ) → ((i : ℕ) → In i is → In i js) → All (λ i. In i js) is
All-In [] js h = tt
All-In (i ∷ is) js h = (h i (inl refl), All-In is js (λ j m. h j (inr m)))

-- `clear` stops every timer that runs.
clear-IsTimed : (s : Toasts) → IsTimed (clear s)
unfolding clear
clear-IsTimed s = record {
  rising = omega arith;
  timed =
      ap timer_ids (timers_gone (timer_ids s.timers) s (All-In (timer_ids s.timers) _ (λ i m. m)));
}

step-IsTimed : (now : ℕ) (e : ToastEvent) (s : Toasts) → IsTimed s → IsTimed (step now e s)
step-IsTimed now (says kind message) s h = say-IsTimed kind message now s h
step-IsTimed now (dismisses id) s h = dismiss-IsTimed id s h
step-IsTimed now clears s h = clear-IsTimed s

expire-IsTimed : (now : ℕ) (s : Toasts) → IsTimed s → IsTimed (expire now s)
unfolding expire
expire-IsTimed now s h =
    dismiss_all-IsTimed (timer_ids (filter (λ (t : Timer). leb t.due now) s.timers)) s h

run-keeps : (es : List (ℕ × ToastEvent)) (s : Toasts) → IsTimed s → IsTimed (run es s)
run-keeps [] s h = h
run-keeps ((now, e) ∷ es) s h =
    run-keeps es (step now e (expire now s))
      (step-IsTimed now e (expire now s) (expire-IsTimed now s h))

-- Whatever is said, dismissed or cleared, and whenever, the ids of the toasts are distinct, and exactly
-- the successes and notices have a timer, one each: no warning and no error ever goes by itself, and
-- no timer is left without its toast.
pub run-IsTimed : (es : List (ℕ × ToastEvent)) → IsTimed (run es no_toasts)
run-IsTimed es = run-keeps es no_toasts (record { rising = omega arith; timed = refl })
