-- ===== src/Api.antt =====
-- app/web/ui/src/lib/api.ts: a request, and the errors it ends in. `fetch` is what the browser makes of
-- it, an argument; `JSON.parse` is a parameter. The tables of paths are left out.
pub mod Outcomes
use jumpway.Prelude.{
  ℕ, Bool, true, false, not, ◌&&◌, ◌||◌, List, [], ◌∷◌, Option, none, some, Text, codes, leb,
  nat_beq, if◌then◌else◌,
}

pub data ApiErrorKind : Type 0 where
  http invalid network timeout aborted : ApiErrorKind

pub record ApiError : Type 0 where
  pub kind : ApiErrorKind
  pub message : Text
  pub status : Option ℕ

abbrev pub saved_prefix : Text
saved_prefix = codes "saved, but "

abbrev pub starts_with : Text → Text → Bool
starts_with [] s = true
starts_with (c ∷ p) [] = false
starts_with (c ∷ p) (d ∷ s) = nat_beq c d && starts_with p s

-- `saved`: the configuration was written, and only the reload failed.
unfoldable pub is_saved : ApiError → Bool
is_saved e = elim e.kind [ http ↦ starts_with saved_prefix e.message | _ ↦ false ]

unfoldable pub is_unreachable : ApiError → Bool
is_unreachable e = elim e.kind [ network ↦ true | timeout ↦ true | _ ↦ false ]

unfoldable pub is_aborted : ApiError → Bool
is_aborted e = elim e.kind [ aborted ↦ true | _ ↦ false ]

-- What `errorMessage` shows of an `ApiError`: nothing, a translated text, or the server's own words with
-- the credentials masked.
pub data ErrorText : Type 0 where
  silent invalid_response unreachable request_failed : ErrorText
  masked : Text → ErrorText

unfoldable pub error_message : ApiError → ErrorText
error_message e = elim e.kind [
  | aborted ↦ silent
  | invalid ↦ invalid_response
  | network ↦ unreachable
  | timeout ↦ unreachable
  | http ↦ elim e.message [ [] ↦ request_failed | c ∷ s ↦ masked (c ∷ s) ]
]

pub data Result (A : Type 0) : Type 0 where
  ok : A → Result A
  failed : ApiError → Result A

-- What becomes of `fetch` and of reading its body.
pub data Fetched : Type 0 where
  response : (status : ℕ) → (body : Text) → Fetched
  threw : Text → Fetched

-- What happens during a request: its signal is aborted before it starts, the timer runs out, or the
-- signal is aborted, before `fetch` is done.
pub record Course : Type 0 where
  pub aborted_before : Bool
  pub timed_out : Bool
  pub aborted_during : Bool
  pub fetched : Fetched

abbrev is_ok : ℕ → Bool
is_ok status = leb 200 status && leb status 299

-- `controller.signal.aborted` once `fetch` is done
abbrev pub gave_up : Course → Bool
gave_up c = c.timed_out || c.aborted_during

module _ {A : Type 0} (parse : Text → Option A) where
  read_response : ℕ → Text → Result A
  read_response status body =
      if not (is_ok status)
      then failed (record { kind = http; message = body; status = some status })
      else elim (parse body) [
        | none ↦
            failed (record {
              kind = invalid;
              message = codes "unreadable response";
              status = some status;
            })
        | some value ↦ ok value
      ]

  unfoldable pub request : Course → Result A
  unfolding read_response
  request c =
      if c.aborted_before
      then failed (record { kind = aborted; message = codes "aborted"; status = none })
      else elim c.fetched [
        | response status body ↦ read_response status body
        | threw message ↦
            if c.timed_out
            then failed (record { kind = timeout; message = codes "timeout"; status = none })
            else if gave_up c
            then failed (record { kind = aborted; message = codes "aborted"; status = none })
            else failed (record { kind = network; message = message; status = none })
      ]
