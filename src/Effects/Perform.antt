-- ===== src/Effects/Perform.antt =====
-- What a handler's effects do to the session, where they lead, and what texts an error may show.
use irwandhi_gitops_lab.Base.{Option, none, some, List, [], ◌∷◌, ◌≢◌, arith}
use irwandhi_gitops_lab.Text.{Text}
use irwandhi_gitops_lab.Session.{UserCodec, Session, set_auth, clear_auth}
use irwandhi_gitops_lab.Records.{text_or}
use irwandhi_gitops_lab.Effects.{Effect, Failure, error_or}

module _ (codec : UserCodec) where
  unfoldable pub perform : List Effect → Session → Session
  perform [] s = s
  perform (Effect.set_auth token user ∷ es) s = perform es (set_auth codec token user s)
  perform (Effect.clear_auth ∷ es) s = perform es (clear_auth s)
  perform (_ ∷ es) s = perform es s

-- The path of the last navigation.
unfoldable pub destination : List Effect → Option Text
destination [] = none
destination (e ∷ es) = later (destination es) e
  where
    later : Option Text → Effect → Option Text
    later (some path) e = some path
    later none (Effect.navigate path) = some path
    later none (Effect.navigate_replace path) = some path
    later none _ = none

-- A failure is never shown as an empty text, if the fallback is not empty.
pub error_or-ne-nil : (err : Failure) (message : Text) → message ≢ [] → error_or err message ≢ []
unfolding error_or text_or
error_or-ne-nil err message ne = ground arith
