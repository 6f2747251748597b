-- ===== src/Dictionary/Api/Cases.antt =====
-- What holds of each route of the API of the keyword dictionary holds of all requests.
use emergency_contact.Prelude.{Bool, true, false, if◌then◌else◌}
use emergency_contact.Python.Values.{Value, Fields}
use emergency_contact.Python.Actions.{Action, pure}
use emergency_contact.CycleApi.Request.{Library}
use emergency_contact.Dictionary.Api.{
  Services, Reply, not_allowed, is_route, get_list, get_version, post_keyword, with_path,
  update_keyword, delete_keyword, route,
}

module _ {W : Type 0} (P : Action W Reply → Type 0) where
  if_holds : (b : Bool) (m n : Action W Reply) → P m → P n → P (if b then m else n)
  if_holds true m n g k = g
  if_holds false m n g k = k

  pub route_holds :
      (s : Services W) (lib : Library) (event : Fields) (principal : Value)
      → P (get_list s lib)
      → P (get_version s lib)
      → P (post_keyword s lib event principal)
      → P (with_path s lib (update_keyword s lib) event principal)
      → P (with_path s lib (delete_keyword s lib) event principal)
      → P (pure not_allowed)
      → P (route s lib event principal)
  unfolding route
  route_holds s lib event principal list version post patch delete other =
      if_holds (is_route event "GET" "/keyword-dictionary") _ _ list (
        if_holds (is_route event "GET" "/keyword-dictionary/version") _ _ version (
          if_holds (is_route event "POST" "/keyword-dictionary") _ _ post (
            if_holds (is_route event "PATCH" "/keyword-dictionary/{category}/{keyword}") _ _ patch (
              if_holds (is_route event "DELETE" "/keyword-dictionary/{category}/{keyword}") _ _
                delete other))))
