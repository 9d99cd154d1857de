-- ===== src/Device/Published.antt =====
-- The URLs in the device description, against the files that the device registers.
use gmrender_resurrect_silan.Base.{◌≡◌, true, some, List, [], ◌∷◌, map, Text, codes, strlen}
use gmrender_resurrect_silan.Base.Outcome.{done}
use gmrender_resurrect_silan.Xml.{Ixml, Element}
use gmrender_resurrect_silan.Scpd.Reading.{below, part, value_of}
use gmrender_resurrect_silan.Scpd.Related.{is_in}
use gmrender_resurrect_silan.Webserver.{VirtualFile, find_file}
use gmrender_resurrect_silan.Device.Description.{Published, upnp_get_scpd, register_scpds}

abbrev pub urls_of : List Element → List Text
urls_of [] = []
urls_of (service ∷ es) = value_of (codes "SCPDURL") (below service) ∷ urls_of es

-- The SCPDURLs that a client reads out of a device description.
abbrev pub scpd_urls : Element → List Text
scpd_urls doc = urls_of (part (codes "serviceList") (part (codes "device") (below doc)))

module _ ⦃x : Ixml⦄ where
  -- A file that is found at a URL: whole, of the type of XML, and the printed SCPD document of a
  -- service that has that URL.
  pub record IsServed (t : Text) (files : List VirtualFile) : Type 0 where
    pub file : VirtualFile
    pub found : find_file t files ≡ some file
    pub whole : file.len ≡ strlen file.contents
    pub as_xml : file.content_type ≡ codes "text/xml"
    pub service : Published
    pub at_url : service.scpd_url ≡ t
    pub its_scpd : upnp_get_scpd service ≡ done (some file.contents)

  -- For these services the SCPD document is generated without a failing assertion, and printed.
  abbrev pub Printed : List Published → Type 0
  Printed [] = Unit {0}
  Printed (srv ∷ services) = ((t : Text) × (upnp_get_scpd srv ≡ done (some t))) × Printed services

  -- What the loop over the services makes of the files.
  pub record Serves (services : List Published) (before : List VirtualFile) : Type 0 where
    pub files : List VirtualFile
    pub runs : register_scpds services before ≡ done files
    pub serves :
        (t : Text)
        → is_in t (map (λ (srv : Published). srv.scpd_url) services) ≡ true
        → IsServed t files
    pub keeps : (t : Text) → IsServed t before → IsServed t files
