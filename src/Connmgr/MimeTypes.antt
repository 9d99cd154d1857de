-- ===== src/Connmgr/MimeTypes.antt =====
-- The list `supported_types` of src/upnp_connmgr.c and the functions that register in it.
use gmrender_resurrect_silan.Base.{
  Bool, false, ◌||◌, List, [], ◌∷◌, Text, codes, text_eq, if◌then◌else◌,
}

-- The search of register_mime_type_internal.
unfoldable pub is_supported : Text → List Text → Bool
is_supported mime_type [] = false
is_supported mime_type (entry ∷ rest) = text_eq entry mime_type || is_supported mime_type rest

-- register_mime_type_internal
unfoldable pub register_mime_type_internal : Text → List Text → List Text
unfolding is_supported
register_mime_type_internal mime_type types =
    if is_supported mime_type types then types else mime_type ∷ types

-- The names that a type is known by as well, which are not types with other names themselves.
unfoldable pub register_alias : Text → Text → Text → List Text → List Text
unfolding register_mime_type_internal
register_alias name alias mime_type types =
    if text_eq name mime_type then register_mime_type_internal alias types else types

-- The last part of register_mime_type: names without "x-".
unfoldable pub register_without_x : Text → List Text → List Text
unfolding register_alias
register_without_x mime_type types =
    let types = register_alias (codes "audio/x-alac") (codes "audio/alac") mime_type types in
    let types = register_alias (codes "audio/x-aiff") (codes "audio/aiff") mime_type types in
    let types = register_alias (codes "audio/x-m4a") (codes "audio/m4a") mime_type types in
    register_alias (codes "audio/x-m4a") (codes "audio/mp4") mime_type types

abbrev pub l16 : Text
l16 = codes "audio/L16;rate=44100;channels=2"

-- register_mime_type of a type that is not "audio/mpeg".
unfoldable pub register_other : Text → List Text → List Text
unfolding register_mime_type_internal register_without_x
register_other mime_type types =
    register_without_x mime_type (register_mime_type_internal mime_type types)

-- register_mime_type. It calls itself for "audio/mpeg", with one other type.
unfoldable pub register_mime_type : Text → List Text → List Text
unfolding register_mime_type_internal register_without_x register_other
register_mime_type mime_type types =
    let types = register_mime_type_internal mime_type types in
    let types =
      (if text_eq (codes "audio/mpeg") mime_type
        then (let types = register_mime_type_internal (codes "audio/x-mpeg") types in
            let types = register_mime_type_internal (codes "audio/x-scpls") types in
            register_other l16 types)
        else types) in
    register_without_x mime_type types
