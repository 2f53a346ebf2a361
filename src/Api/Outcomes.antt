-- ===== src/Api/Outcomes.antt =====
-- How a request can end.
use jumpway.Prelude.{ℕ, ◌≤◌, true, false, ◌&&◌, Option, some, Text, ◌≡◌, ◌⊎◌, ◌↔◌, arith}
use jumpway.Api.{
  ApiError, is_saved, is_unreachable, is_aborted, error_message, silent, ok, response, Course,
  request,
}

-- A request answers a value exactly when it was not aborted before it began and a response with a good
-- status came whose body can be read; and that is the value.
request-eq-ok_iff :
    {A : Type 0} (parse : Text → Option A) (c : Course) (value : A)
    → (request parse c ≡ ok value) ↔ (
        (c.aborted_before ≡ false)
        × ((status : ℕ) × (body : Text) × (c.fetched ≡ response status body)
            × (200 ≤ status)
            × (status ≤ 299)
            × (parse body ≡ some value)))
unfolding request
request-eq-ok_iff parse c value = ground arith

-- The three answers that the pages tell apart exclude each other: an error is at most one of saved,
-- unreachable and aborted, and it is silent exactly when aborted.
error-kinds :
    (e : ApiError)
    → (((is_saved e ≡ false) × (is_unreachable e ≡ false)) ⊎ (is_aborted e ≡ false))
      × ((is_saved e && is_unreachable e) ≡ false)
      × ((error_message e ≡ silent) ↔ (is_aborted e ≡ true))
unfolding is_saved is_unreachable is_aborted error_message
error-kinds e = ground arith
