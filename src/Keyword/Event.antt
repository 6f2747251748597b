-- ===== src/Keyword/Event.antt =====
-- The event of the keyword matcher: `_parse_event` of backend/lambdas/keyword_matcher/handler.py.
use emergency_contact.Prelude.{not}
use emergency_contact.Python.Results.{Result, ok, value_error, raise_if, ◌>>=◌, ◌>>◌}
use emergency_contact.Python.Values.{Value, get, is_truthy}
use emergency_contact.Keyword.Transcript.{require_dict}

-- The bucket and the key, neither of which is empty.
unfoldable pub parse_event : Value → Result (Value × Value)
parse_event raw = do
  event ← require_dict raw
  detail ← require_dict (get "detail" event)
  bucket_block ← require_dict (get "bucket" detail)
  raise_if (not (is_truthy (get "name" bucket_block))) value_error
  object_block ← require_dict (get "object" detail)
  raise_if (not (is_truthy (get "key" object_block))) value_error
  ok (get "name" bucket_block, get "key" object_block)
