-- ===== src/Auth/Permissions.antt =====
-- core/cat/auth/permissions.py. Both enumerations are of texts there, so a name and its member are
-- the same key.
use cat_forked.Prelude.{
  String, ◌≡◌, refl, Bool, true, false, Option, none, some, List, [], ◌∷◌, map, Dict, lookup,
  mem_of, all_of, ◌&&◌,
}

pub data AuthResource : Type 0 where
  status memory conversation settings llm embedder : AuthResource
  auth_handler users upload plugins static : AuthResource

pub data AuthPermission : Type 0 where
  write edit list read delete : AuthPermission

unfoldable pub resource_name : AuthResource → String
resource_name status = "STATUS"
resource_name memory = "MEMORY"
resource_name conversation = "CONVERSATION"
resource_name settings = "SETTINGS"
resource_name llm = "LLM"
resource_name embedder = "EMBEDDER"
resource_name auth_handler = "AUTH_HANDLER"
resource_name users = "USERS"
resource_name upload = "UPLOAD"
resource_name plugins = "PLUGINS"
resource_name static = "STATIC"

unfoldable pub permission_name : AuthPermission → String
permission_name write = "WRITE"
permission_name edit = "EDIT"
permission_name list = "LIST"
permission_name read = "READ"
permission_name delete = "DELETE"

-- The members, in the order of their declaration.
abbrev all_resources : List AuthResource
all_resources =
    status ∷ memory ∷ conversation ∷ settings ∷ llm ∷ embedder ∷ auth_handler ∷ users ∷ upload
    ∷ plugins ∷ static ∷ []

abbrev all_permissions : List AuthPermission
all_permissions = write ∷ edit ∷ list ∷ read ∷ delete ∷ []

abbrev pub Permissions : Type 0
Permissions = Dict (List String)

unfoldable pub get_full_permissions : Permissions
unfolding resource_name permission_name
get_full_permissions =
    map (λ res. (resource_name res, map permission_name all_permissions)) all_resources

unfoldable pub get_base_permissions : Permissions
get_base_permissions =
    ("STATUS", "READ" ∷ [])
    ∷ ("MEMORY", "READ" ∷ "LIST" ∷ [])
    ∷ ("CONVERSATION", "WRITE" ∷ "EDIT" ∷ "LIST" ∷ "READ" ∷ "DELETE" ∷ [])
    ∷ ("STATIC", "READ" ∷ [])
    ∷ []

granted : Option (List String) → AuthPermission → Bool
granted none p = false
granted (some names) p = mem_of (permission_name p) names

-- `resource in permissions.keys() and permission in permissions[resource]`
unfoldable pub allows : Permissions → AuthResource → AuthPermission → Bool
unfolding granted
allows perms r p = granted (lookup (resource_name r) perms) p

-- What pydantic makes of a `Dict[AuthResource, List[AuthPermission]]`: it raises on a text that is no member.
unfoldable pub is_valid : Permissions → Bool
unfolding resource_name permission_name
is_valid [] = true
is_valid ((resource, names) ∷ later) =
    mem_of resource (map resource_name all_resources)
    && all_of (λ name. mem_of name (map permission_name all_permissions)) names
    && is_valid later

-- The full permissions allow everything.
pub allows-get_full_permissions :
    (r : AuthResource) (p : AuthPermission) → allows get_full_permissions r p ≡ true
unfolding allows get_full_permissions
allows-get_full_permissions status write = refl
allows-get_full_permissions memory write = refl
allows-get_full_permissions conversation write = refl
allows-get_full_permissions settings write = refl
allows-get_full_permissions llm write = refl
allows-get_full_permissions embedder write = refl
allows-get_full_permissions auth_handler write = refl
allows-get_full_permissions users write = refl
allows-get_full_permissions upload write = refl
allows-get_full_permissions plugins write = refl
allows-get_full_permissions static write = refl
allows-get_full_permissions _ _ = refl

-- What a new user may do.
pub is_base : AuthResource → AuthPermission → Bool
is_base status read = true
is_base memory read = true
is_base memory list = true
is_base conversation p = true
is_base static read = true
is_base r p = false

-- The base permissions allow to read the status and the static files, to read and list memories, all
-- that concerns the conversation, and nothing else.
pub allows-get_base_permissions :
    (r : AuthResource) (p : AuthPermission) → allows get_base_permissions r p ≡ is_base r p
unfolding allows get_base_permissions resource_name permission_name is_base
allows-get_base_permissions status write = refl
allows-get_base_permissions memory write = refl
allows-get_base_permissions conversation write = refl
allows-get_base_permissions settings write = refl
allows-get_base_permissions llm write = refl
allows-get_base_permissions embedder write = refl
allows-get_base_permissions auth_handler write = refl
allows-get_base_permissions users write = refl
allows-get_base_permissions upload write = refl
allows-get_base_permissions plugins write = refl
allows-get_base_permissions static write = refl
allows-get_base_permissions _ _ = refl
