-- ===== src/Engine/Settings/Page.antt =====
-- `URI` and `status` of sputnik/Engine.cpp: the reports of the engine on itself. The keys of the
-- reactor's URI map are a parameter.
use smartmet_engine_sputnik.Prelude.{
  Bool, List, [], ◌∷◌, ◌++◌, Option, none, some, if◌then◌else◌, pos,
}
use smartmet_engine_sputnik.Text.{Str, codes, to_string}
use smartmet_engine_sputnik.Platform.{Platform}
use smartmet_engine_sputnik.Services.{Services}
use smartmet_engine_sputnik.Services.Reports
use smartmet_engine_sputnik.Engine.{BroadcastMode, backend, frontend, unknown}
use smartmet_engine_sputnik.Engine.Settings.{Settings}

module _ (P : Platform) where
  -- `Engine::URI`
  unfoldable pub uri : Settings P → Str
  uri c = codes "http://" ++ (c.http_address ++ (b':' ∷ to_string (pos c.http_port)))

  -- What `status` writes of the mode.
  unfoldable pub mode_text : BroadcastMode → Str
  mode_text backend = codes "a BACKEND"
  mode_text frontend = codes "a FRONTEND"
  mode_text unknown = codes " in a UNINITIALIZED STATE"

  -- A line of the report: a text, a value and a text, with a line feed.
  unfoldable pub line : Str → Str → Str → Str
  line before value after = before ++ (value ++ (after ++ 10 ∷ []))

  unfoldable pub full_lines : Settings P → Str
  unfolding line
  full_lines c =
      line (codes "<li>HTTP Interface: ") (c.http_address ++ (b':' ∷ to_string (pos c.http_port)))
        (codes "</li>")
      ++ (line (codes "<li>Throttle Limit: ") (to_string (pos c.throttle_limit)) (codes "</li>")
          ++ line (codes "<li>Broadcast Interface: ")
              (c.udp_listener_address ++ (b':' ∷ to_string (pos c.udp_listener_port))) [])

  -- The loop over the keys of the reactor's URI map.
  unfoldable pub handler_lines : List Str → Str
  unfolding line
  handler_lines [] = []
  handler_lines (handler ∷ handlers) =
      line (codes "<li>") handler (codes "</li>") ++ handler_lines handlers

  -- The part of `status` on a backend; `handlers` is missing before the reactor is known.
  unfoldable pub backend_status : Option (List Str) → Str
  unfolding handler_lines line
  backend_status handlers =
      line (codes "<h3>Services currently provided by this backend server</h3>") [] []
      ++ elim handlers [
        | none ↦ line (codes "<div>List not available, Reactor not initialized</div>") [] []
        | some hs ↦ line (codes "<ol>") [] [] ++ (handler_lines hs ++ line (codes "</ol>") [] [])
      ]

  -- The part of `status` on a frontend, and on an engine that has not been launched.
  unfoldable pub frontend_status : Bool → Services P → Str
  unfolding line
  frontend_status full s =
      line (codes "<h3>Services known by the frontend server</h3>") [] [] ++ Reports.status P full s

  unfoldable pub mode_status : BroadcastMode → Bool → Option (List Str) → Services P → Str
  unfolding backend_status frontend_status
  mode_status backend full handlers s = backend_status handlers
  mode_status frontend full handlers s = frontend_status full s
  mode_status unknown full handlers s = frontend_status full s

  -- `Engine::status`
  unfoldable pub status : BroadcastMode → Bool → Settings P → Option (List Str) → Services P → Str
  unfolding mode_text line full_lines mode_status
  status mode full c handlers s =
      line (codes "<h2>Broadcast Cluster Information</h2>") [] (10 ∷ [])
      ++ (codes "<div>This server is "
          ++ (mode_text mode
              ++ (codes "</div>"
                  ++ (line (codes "<ul>") [] []
                      ++ (line (codes "<li>Host: ") c.hostname (codes "</li>")
                          ++ (line (codes "<li>Comment: ") c.comment (codes "</li>")
                              ++ ((if full then full_lines c else [])
                                  ++ (line (codes "</li>") [] []
                                      ++ (line (codes "</ul>") [] []
                                          ++ mode_status mode full handlers s)))))))))
