-- ===== src/HttpClient/Post.antt =====
-- POST requests (internal/enrichment/http/client.go).
use ggt.Prelude.{
  Bool, true, false, not, ◌&&◌, Option, none, some, [], ◌∷◌, Text, codes, text_eq, if◌then◌else◌,
}
use ggt.Retry.{plain, call}
use ggt.HttpClient.{
  Client, World, Request, PostOptions, Reply, key_missing, request_failed, exchange_failed, failed,
  handle_response, exchange, admit, rejected,
}

abbrev pub is_empty : Text → Bool
is_empty t = text_eq t []

unfoldable pub post_request : Text → Text → Text → PostOptions → Request
post_request url content_type body opts = record {
  method = codes "POST";
  url = url;
  body = body;
  header =
      (codes "Content-Type", content_type)
      ∷ (if is_empty opts.idempotency_key
          then []
          else (codes "Idempotency-Key", opts.idempotency_key) ∷ []);
}

-- the single request of `PostWithOptions`
unfoldable pub send_once : World → Request → Client → Option Reply
unfolding handle_response
send_once w req c = elim (w.new_request req) [
  | some e ↦ some (record { client = c; answer = request_failed e; trace = [] })
  | none ↦
      let out = w.send req 0 in
      elim out.err [
        | some e ↦ some (record {
          client = failed w c;
          answer = exchange_failed (plain e);
          trace = call 0 ∷ [];
        })
        | none ↦ elim out.resp [ none ↦ none | some r ↦ some (handle_response w c r (call 0 ∷ [])) ]
      ]
]

abbrev pub no_retries : PostOptions
no_retries = record {
  allow_retries = false;
  idempotency_key = [];
  idempotent_verb_override = false;
}

-- `PostWithOptions`, under options that are not nil
unfoldable pub post_under : World → Text → Text → Text → PostOptions → Client → Option Reply
unfolding exchange send_once admit
post_under w url content_type body opts c =
    let req = post_request url content_type body opts in
    let (c', allowed) = admit w c in
    if opts.allow_retries && is_empty opts.idempotency_key && not opts.idempotent_verb_override
    then some (record { client = c; answer = key_missing; trace = [] })
    else elim allowed [
      | false ↦ rejected c'
      | true ↦ if opts.allow_retries then exchange w req c' else send_once w req c'
    ]

unfoldable pub post_with_options :
    World → Text → Text → Text → Option PostOptions → Client → Option Reply
unfolding post_under
post_with_options w url content_type body none c = post_under w url content_type body no_retries c
post_with_options w url content_type body (some opts) c = post_under w url content_type body opts c

unfoldable pub post : World → Text → Text → Text → Client → Option Reply
unfolding post_with_options
post w url content_type body c = post_with_options w url content_type body (some no_retries) c
