-- ===== src/Session/Websockets.antt =====
-- core/cat/routes/websocket/websocket_manager.py: the open socket of each user, and what
-- core/cat/routes/websocket/websocket.py does with it when a socket opens and closes.
use cat_forked.Prelude.{
  String, ◌≡◌, refl, ap, ◌∙◌, Option, none, some, List, [], ◌∷◌, Dict, lookup, insert, erase,
  lookup-insert, lookup-erase, ◌==◌, if◌then◌else◌, ==_refl,
}

module _ {S : Type 0} where
  -- `add_connection`
  unfoldable pub add_connection : String → S → Dict S → Dict S
  add_connection id websocket connections = insert id websocket connections

  -- `get_connection`
  unfoldable pub get_connection : String → Dict S → Option S
  get_connection id connections = lookup id connections

  -- `remove_connection`
  unfoldable pub remove_connection : String → Dict S → Dict S
  remove_connection id connections = erase id connections

-- What `websocket_endpoint` tells the manager: a user's socket is open, or has closed.
pub data Event (S : Type 0) : Type 0 where
  opened closed : String → S → Event S

module _ {S : Type 0} where
  unfoldable pub websocket_endpoint : Event S → Dict S → Dict S
  unfolding add_connection remove_connection
  websocket_endpoint (opened id websocket) = add_connection id websocket
  websocket_endpoint (closed id websocket) = remove_connection id

  unfoldable pub after_all : List (Event S) → Dict S → Dict S
  unfolding websocket_endpoint
  after_all [] connections = connections
  after_all (e ∷ es) connections = after_all es (websocket_endpoint e connections)

  -- The last event of a user.
  abbrev pub last_opened : String → Option S → List (Event S) → Option S
  last_opened id socket [] = socket
  last_opened id socket (opened other s ∷ es) =
      last_opened id (if other == id then some s else socket) es
  last_opened id socket (closed other s ∷ es) =
      last_opened id (if other == id then none else socket) es

  -- After any events the manager has, for each user, the socket of the user's last event if this
  -- opened one, none if it closed one, and what it had before if the user has no event: the other
  -- users do not matter, and which of the user's sockets closed does not either.
  pub get_connection-after_all :
      (id : String) (es : List (Event S)) (connections : Dict S)
      → get_connection id (after_all es connections)
        ≡ last_opened id (get_connection id connections) es
  unfolding get_connection after_all websocket_endpoint add_connection remove_connection
  get_connection-after_all id [] connections = refl
  get_connection-after_all id (opened other s ∷ es) connections =
      get_connection-after_all id es (insert other s connections)
      ∙ ap (λ (o : Option S). last_opened id o es) (lookup-insert other id s connections)
  get_connection-after_all id (closed other s ∷ es) connections =
      get_connection-after_all id es (erase other connections)
      ∙ ap (λ (o : Option S). last_opened id o es) (lookup-erase other id connections)

  -- When a user opens two sockets and then the older one closes, the manager has no connection of
  -- the user, though the newer socket is open.
  pub remove_connection-newer :
      (id : String) (older newer : S) (connections : Dict S)
      → get_connection id
          (after_all (opened id older ∷ opened id newer ∷ closed id older ∷ []) connections)
        ≡ none
  remove_connection-newer id older newer connections =
      get_connection-after_all id (opened id older ∷ opened id newer ∷ closed id older ∷ [])
        connections
      ∙ rw (==_refl id) refl
