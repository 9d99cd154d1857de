-- ===== src/Device/Description.antt =====
-- The device description and the start of src/upnp_device.c: the documents that the device publishes.
use gmrender_resurrect_silan.Base.{Option, none, some, List, [], ◌∷◌, Text, codes}
use gmrender_resurrect_silan.Base.Int.{ℤ, pos}
use gmrender_resurrect_silan.Base.Outcome.{Outcome, done, fault, assertion, null_pointer, ◌>>=◌}
use gmrender_resurrect_silan.Xml.{
  Ixml, Element, xmlelement_new, xmlelement_add_element, xmldoc_new_topelement, add_value_element,
}
use gmrender_resurrect_silan.Scpd.{Described, add_value_element_int, generate_scpd, gen_specversion}
use gmrender_resurrect_silan.Webserver.{VirtualFile, LocalFile, register_buf, register_file}

-- struct icon
pub record Icon : Type 0 where
  pub width : ℤ
  pub height : ℤ
  pub depth : ℤ
  pub url : Text
  pub mimetype : Text

-- What of a `struct service` is published.
pub record Published : Type 0 where
  pub service_type : Text
  pub published_id : Text
  pub scpd_url : Text
  pub control_url : Text
  pub event_url : Text
  pub described : Described

-- struct upnp_device_descriptor
pub record Descriptor : Type 0 where
  pub device_type : Text
  pub friendly_name : Text
  pub manufacturer : Text
  pub manufacturer_url : Text
  pub model_description : Text
  pub model_name : Text
  pub model_number : Text
  pub model_url : Text
  pub serial_number : Text
  pub udn : Text
  pub upc : Text
  pub presentation_url : Text
  pub icons : Option (List Icon)
  pub services : List Published

-- One round of the loop of gen_desc_iconlist.
unfoldable pub gen_icon : Icon → Element
unfolding xmlelement_new add_value_element add_value_element_int
gen_icon icon =
    let parent = xmlelement_new (codes "icon") in
    let parent = add_value_element parent (codes "mimetype") icon.mimetype in
    let parent = add_value_element_int parent (codes "width") icon.width in
    let parent = add_value_element_int parent (codes "height") icon.height in
    let parent = add_value_element_int parent (codes "depth") icon.depth in
    add_value_element parent (codes "url") icon.url

unfoldable pub gen_icons : List Icon → Element → Element
unfolding gen_icon xmlelement_add_element
gen_icons [] top = top
gen_icons (icon ∷ icons) top = gen_icons icons (xmlelement_add_element top (gen_icon icon))

-- gen_desc_iconlist
unfoldable pub gen_desc_iconlist : List Icon → Element
unfolding gen_icons xmlelement_new
gen_desc_iconlist icons = gen_icons icons (xmlelement_new (codes "iconList"))

-- One round of the loop of gen_desc_servicelist.
unfoldable pub gen_service : Published → Element
unfolding xmlelement_new add_value_element
gen_service srv =
    let parent = xmlelement_new (codes "service") in
    let parent = add_value_element parent (codes "serviceType") srv.service_type in
    let parent = add_value_element parent (codes "serviceId") srv.published_id in
    let parent = add_value_element parent (codes "SCPDURL") srv.scpd_url in
    let parent = add_value_element parent (codes "controlURL") srv.control_url in
    add_value_element parent (codes "eventSubURL") srv.event_url

unfoldable pub gen_services : List Published → Element → Element
unfolding gen_service xmlelement_add_element
gen_services [] top = top
gen_services (srv ∷ services) top =
    gen_services services (xmlelement_add_element top (gen_service srv))

-- gen_desc_servicelist
unfoldable pub gen_desc_servicelist : List Published → Element
unfolding gen_services xmlelement_new
gen_desc_servicelist services = gen_services services (xmlelement_new (codes "serviceList"))

abbrev pub with_icons : Option (List Icon) → Element → Element
with_icons none parent = parent
with_icons (some icons) parent = xmlelement_add_element parent (gen_desc_iconlist icons)

-- The element `device` of generate_desc up to its icons.
unfoldable pub gen_device : Descriptor → Element
unfolding xmlelement_new add_value_element
gen_device def =
    let parent = xmlelement_new (codes "device") in
    let parent = add_value_element parent (codes "deviceType") def.device_type in
    let parent = add_value_element parent (codes "presentationURL") def.presentation_url in
    let parent = add_value_element parent (codes "friendlyName") def.friendly_name in
    let parent = add_value_element parent (codes "manufacturer") def.manufacturer in
    let parent = add_value_element parent (codes "manufacturerURL") def.manufacturer_url in
    let parent = add_value_element parent (codes "modelDescription") def.model_description in
    let parent = add_value_element parent (codes "modelName") def.model_name in
    let parent = add_value_element parent (codes "modelNumber") def.model_number in
    let parent = add_value_element parent (codes "modelURL") def.model_url in
    add_value_element parent (codes "UDN") def.udn

-- generate_desc. The C code links `device` before it fills it; here it is filled first.
unfoldable pub generate_desc : Descriptor → Element
unfolding gen_specversion gen_device gen_desc_iconlist gen_desc_servicelist xmldoc_new_topelement
    xmlelement_add_element
generate_desc def =
    let root =
      xmldoc_new_topelement (codes "root") (some (codes "urn:schemas-upnp-org:device-1-0")) in
    let root = xmlelement_add_element root (gen_specversion (pos 1) (pos 0)) in
    xmlelement_add_element root (
      xmlelement_add_element (with_icons def.icons (gen_device def))
        (gen_desc_servicelist def.services))

-- The loop of upnp_device_init over the icons, whose files are looked up by their URLs; there is no
-- test for a list that is NULL.
unfoldable pub register_icons : (Text → LocalFile) → List Icon → List VirtualFile → List VirtualFile
unfolding register_file
register_icons local [] files = files
register_icons local (icon ∷ icons) files =
    register_icons local icons (register_file icon.url (codes "image/png") (local icon.url) files).1

module _ ⦃x : Ixml⦄ where
  -- upnp_create_device_desc
  unfoldable pub upnp_create_device_desc : Descriptor → Option Text
  unfolding generate_desc
  upnp_create_device_desc def = x.to_string (generate_desc def)

  -- upnp_get_scpd
  unfoldable pub upnp_get_scpd : Published → Outcome (Option Text)
  unfolding generate_scpd
  upnp_get_scpd srv = do doc ← generate_scpd srv.described; done (x.to_string doc)

  -- One round of the loop of upnp_device_init over the services.
  abbrev pub register_scpd : Published → Option Text → List VirtualFile → Outcome (List VirtualFile)
  register_scpd srv none files = fault assertion
  register_scpd srv (some buf) files =
      done (register_buf srv.scpd_url buf (codes "text/xml") files).1

  unfoldable pub register_scpds : List Published → List VirtualFile → Outcome (List VirtualFile)
  unfolding register_buf upnp_get_scpd
  register_scpds [] files = done files
  register_scpds (srv ∷ services) files = do
    scpd ← upnp_get_scpd srv
    files ← register_scpd srv scpd files
    register_scpds services files

  abbrev pub register_all :
      (Text → LocalFile)
      → Option (List Icon)
      → List Published
      → List VirtualFile
      → Outcome (List VirtualFile)
  register_all local none services files = fault null_pointer
  register_all local (some icons) services files =
      register_scpds services (register_icons local icons files)

  -- The documents of upnp_device_init.
  unfoldable pub register_documents :
      (Text → LocalFile) → Descriptor → List VirtualFile → Outcome (List VirtualFile)
  unfolding register_icons register_scpds
  register_documents local def files = register_all local def.icons def.services files
