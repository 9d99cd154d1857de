-- ===== src/Examples/Services.antt =====
-- Types that are registered and shown, and a document that is served.
use gmrender_resurrect_silan.Base.{◌≡◌, refl, true, some, List, [], ◌∷◌, Text, codes, strlen, arith}
use gmrender_resurrect_silan.Base.Int.{pos, negsuc}
use gmrender_resurrect_silan.Base.Outcome.{Ends, done, ◌>>=◌}
use gmrender_resurrect_silan.Action.{add_response}
use gmrender_resurrect_silan.Variables.Model.{Service}
use gmrender_resurrect_silan.Connmgr.MimeTypes.{is_supported, register_mime_type}
use gmrender_resurrect_silan.Connmgr.Service.{get_service, connmgr_init, get_protocol_info}
use gmrender_resurrect_silan.Connmgr.Registered.{Distinct, register-Distinct}
use gmrender_resurrect_silan.Connmgr.Info.{joined, protocol_info-advertises}
use gmrender_resurrect_silan.Webserver.{WebServerFile, FileInfo, get_info, open_file, register_buf}
use gmrender_resurrect_silan.Webserver.Reading.{
  IsInside, Access, reading, seeking, accesses, accesses-IsInside,
}
use gmrender_resurrect_silan.Webserver.Serving.{reads, registered-served}
use gmrender_resurrect_silan.Examples.{example_ixml, example_upnp, example_event}

abbrev example_types : List Text
example_types = codes "audio/*" ∷ []

example_types-Distinct : Distinct example_types
unfolding Distinct is_supported
example_types-Distinct = (refl, tt)

register-Distinct_example :
    Distinct (register_mime_type (codes "audio/mpeg") example_types)
    × (is_supported (codes "audio/mpeg") (register_mime_type (codes "audio/mpeg") example_types)
        ≡ true)
    × ((t : Text)
        → is_supported t example_types ≡ true
        → is_supported t (register_mime_type (codes "audio/mpeg") example_types) ≡ true)
register-Distinct_example =
    register-Distinct (codes "audio/mpeg") example_types example_types-Distinct

protocol_info-advertises_example :
    (s : Service) × ((get_service >>= connmgr_init (codes "audio/mpeg" ∷ example_types))
      ≡ done (pos 0, s))
    × (get_protocol_info s example_event ≡ (
        let answered =
          add_response
            (codes "Sink")
            (joined (codes "audio/mpeg") example_types)
            (add_response (codes "Source") [] example_event) in
        done (answered.status, s, answered)))
protocol_info-advertises_example =
    protocol_info-advertises (codes "audio/mpeg") example_types example_event

abbrev example_text : Text
example_text = codes "<scpd>"

registered-served_example :
    (info : FileInfo) × (f : WebServerFile) × (get_info
        (codes "/a")
        (register_buf (codes "/a") example_text (codes "text/xml") []).1
      ≡ (pos 0, some info))
    × (info.file_length ≡ strlen example_text)
    × (open_file (codes "/a") true (register_buf (codes "/a") example_text (codes "text/xml") []).1
        ≡ some f)
    × (reads (4 ∷ 4 ∷ []) f ≡ done (example_text, record f { position = strlen example_text }))
registered-served_example =
    registered-served (codes "/a") example_text (codes "text/xml") [] (4 ∷ 4 ∷ []) (omega arith)
      (omega arith, (omega arith, tt)) (omega arith)

abbrev example_opened : WebServerFile
example_opened = record { position = 0; file_contents = example_text; file_len = 6 }

-- Four bytes, two back, and four more.
abbrev example_accesses : List Access
example_accesses = reading 4 ∷ seeking (negsuc 1) 1 ∷ reading 4 ∷ []

accesses-IsInside_example : Ends IsInside (accesses example_accesses example_opened)
accesses-IsInside_example =
    accesses-IsInside example_accesses example_opened (omega arith, (omega arith, tt))
      (record { whole = refl; within = omega arith; small = omega arith })
