-- ===== src/Tests/Tokens.antt =====
-- A Keycloak server that takes one token, for whatever else it answers.
use inari_operator.Base.{ℕ, ◌≡◌, refl, Bool, true, false, [], ◌++◌, ◌==◌, if◌then◌else◌}
use inari_operator.Text.{Str, is_empty, bytes, str_beq, str_eq}
use inari_operator.Cluster.Env.{Trace, Response}
use inari_operator.Cluster.Exec.{World}

abbrev pub answer : ℕ → Str → Response
answer status body = record { status = status; body = body }

-- The answer to a request with this `Authorization`, where an accepted one has the answer given.
abbrev pub respond : Str → Response → Response
respond authorization accepted =
    if authorization == []
    then answer 200 []
    else if authorization == bytes "Bearer tok"
    then accepted
    else answer 401 []

abbrev pub accepts : Trace → Str → Bool
accepts t token = token == bytes "tok"

pub respond_refused :
    (token : Str) (r : Response)
    → (token == bytes "tok") ≡ false
    → respond (bytes "Bearer " ++ token) r ≡ answer 401 []
unfolding bytes str_beq
respond_refused token r wrong = rw wrong refl

pub respond_accepted :
    (token : Str) (r : Response)
    → (token == bytes "tok") ≡ true
    → respond (bytes "Bearer " ++ token) r ≡ r
unfolding bytes str_beq
respond_accepted token r right = rw right refl

pub respond_token : (r : Response) → respond [] r ≡ answer 200 []
unfolding str_beq
respond_token r = refl

pub token_full : is_empty (bytes "tok") ≡ false
unfolding bytes
token_full = refl

-- A token that the server no longer accepts.
abbrev pub stale_world : World
stale_world = record { trace = []; token = bytes "old"; token_exp = 60_000_000_000 }
