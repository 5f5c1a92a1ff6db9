-- ===== src/Logging/Sent.antt =====
-- What becomes of a log record of services/common/core/logging_config.py.
use edge_serverless_box.Base.{◌≡◌, refl, sym, ap, subst, String, Option, some, List, [], ◌∷◌}
use edge_serverless_box.Base.Dict.{Dict}
use edge_serverless_box.Http.Value.{Json, text, object, Fields, get, default_key, default_key-get}
use edge_serverless_box.Logging.{
  Post, answered, failed, raised, Emitted, delivered, fell_back, handle_error, merge_stream_fields,
  url_params, fallback, log_entry, send, emit_entry, or_error, emit,
}

merge_stream_fields-get :
    (own : Dict String) (k : String) (v : Json) (entry : Fields)
    → get k entry ≡ some v
    → get k (merge_stream_fields own entry) ≡ some v
unfolding merge_stream_fields
merge_stream_fields-get [] k v entry e = e
merge_stream_fields-get ((j, w) ∷ own) k v entry e =
    merge_stream_fields-get own k v (default_key j (text w) entry)
      (default_key-get j k (text w) v entry e)

-- Where an entry ends up, by what becomes of the request.
abbrev pub Kept : List (String × String) → Fields → Post → Emitted → Type 0
Kept params merged answered emitted = emitted ≡ delivered params merged
Kept params merged (failed error) emitted = emitted ≡ fell_back (fallback error merged)
Kept params merged raised emitted = emitted ≡ handle_error

send-Kept :
    (loads : String → Option Json) (post : List (String × String) → Fields → Post)
    (own : Dict String) (entry : Fields) (o : Post)
    → post (url_params own) (merge_stream_fields own entry) ≡ o
    → Kept (url_params own) (merge_stream_fields own entry) o (send loads post own entry)
unfolding send
send-Kept loads post own entry answered e = rw e
send-Kept loads post own entry (failed error) e = rw e
send-Kept loads post own entry raised e = rw e

-- A message that is a JSON mapping, as the formatter's are, or no JSON at all is sent as one entry. If
-- the request fails, the same entry is written to the standard error stream instead, with the reason.
-- The entry has every field of the message, unchanged; the handler's own fields only fill gaps.
pub emit-Kept :
    (loads : String → Option Json) (post : List (String × String) → Fields → Post)
    (own : Dict String) (msg levelname : String) (entry : Fields)
    → log_entry msg levelname (loads msg) ≡ object entry
    → (merged : Fields) × (Kept
          (url_params own)
          merged
          (post (url_params own) merged)
          (emit loads post own msg levelname)
        × ((k : String) (v : Json) → get k entry ≡ some v → get k merged ≡ some v))
unfolding emit
emit-Kept loads post own msg levelname entry e = (
  merge_stream_fields own entry,
  (
    subst
        (λ x.
          Kept (url_params own) (merge_stream_fields own entry)
            (post (url_params own) (merge_stream_fields own entry)) x)
        (sym (ap (λ v. or_error loads post own (emit_entry loads post own v)) e))
        (send-Kept loads post own entry (post (url_params own) (merge_stream_fields own entry))
          refl),
    λ k v found. merge_stream_fields-get own k v entry found,
  ),
)
