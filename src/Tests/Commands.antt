-- ===== src/Tests/Commands.antt =====
-- A server that has one message on a channel, and one that fails.
use iis_asgi_handler.Prelude.{
  ◌≡◌, refl, inr, List, [], ◌∷◌, ◌++◌, none, some, Bytes, codes, Result, ok, err, Error, ◌==◌,
  if◌then◌else◌,
}
use iis_asgi_handler.Redis.{prefixed_channels, without_prefix, receive_many, send_to}
use iis_asgi_handler.Redis.Commands.{
  RedisReply, string, status, error, array, Server, connect, send_commands, get_reply, blpop_reply,
  receive_many_commands, redis_of, Answers, commands-Same,
}

-- The reply by the first letter of the command's name.
abbrev reply_to : RedisReply → Bytes → RedisReply
reply_to text [] = error (codes "ERR")
reply_to text (c ∷ name) =
    if c == b'B'
    then array (codes "p:a" ∷ codes "p:k" ∷ [])
    else if c == b'G'
    then text
    else status (codes "OK")

abbrev first : List Bytes → Bytes
first [] = []
first (a ∷ arguments) = a

-- GET reads; every other command is kept.
abbrev kept : Bytes → List Bytes → List (List Bytes) → List (List Bytes)
kept [] arguments w = w
kept (c ∷ name) arguments w = if c == b'G' then w else w ++ arguments ∷ []

abbrev server_with : RedisReply → Server
server_with text = record {
  World = List (List Bytes);
  command =
      λ arguments w. (some (reply_to text (first arguments)), kept (first arguments) arguments w);
}

abbrev working : Server
working = server_with (string (codes "hi"))

working-Answers : Answers working
working-Answers = record {
  blpop_answers = λ keys w. inr (codes "p:a", codes "p:k", refl);
  get_answers = λ key w. inr (codes "hi", refl);
  get_reads = λ key w. refl;
}

commands-Same_run :
    (receive_many_commands working (codes "p:") (λ ks. ks) (codes "a" ∷ []) []
      ≡ receive_many (redis_of working) (codes "p:") (λ ks. ks) (codes "a" ∷ []) [])
    × (send_commands working (codes "p:") (codes "k") (codes "a") (codes "hi") []
        ≡ send_to (redis_of working) (codes "p:") (codes "k") (codes "a") (codes "hi") [])
commands-Same_run =
    commands-Same working (codes "p:") working-Answers (λ ks. ks) (codes "a" ∷ []) (codes "k")
      (codes "a") (codes "hi") []

abbrev value_of : Result ((Bytes × Bytes) × List (List Bytes)) → Result (Bytes × Bytes)
value_of (ok (answer, w)) = ok answer
value_of (err e) = err e

receives_text :
    value_of (receive_many_commands working (codes "p:") (λ ks. ks) (codes "a" ∷ []) [])
    ≡ ok (codes "a", codes "hi")
unfolding receive_many_commands blpop_reply get_reply without_prefix prefixed_channels
receives_text = refl

-- The text of an error is taken for the message.
receives_error :
    value_of (
      receive_many_commands
        (server_with (error (codes "LOADING")))
        (codes "p:")
        (λ ks. ks)
        (codes "a" ∷ [])
        [])
    ≡ ok (codes "a", codes "LOADING")
unfolding receive_many_commands blpop_reply get_reply without_prefix prefixed_channels
receives_error = refl

lost_connection : blpop_reply working (codes "p:") none [] ≡ err Error.null_pointer
unfolding blpop_reply
lost_connection = refl

no_context : connect none ≡ err Error.null_pointer
unfolding connect
no_context = refl
