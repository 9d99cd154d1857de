-- ===== src/Examples/Scpd.antt =====
-- The three services' tables, and the document of the RenderingControl service.
use gmrender_resurrect_silan.Base.{◌≡◌, refl, true, none, Text}
use gmrender_resurrect_silan.Base.Outcome.{done, fault, assertion}
use gmrender_resurrect_silan.Xml.{Element}
use gmrender_resurrect_silan.Transport.Table.{transport_variable_names}
use gmrender_resurrect_silan.Control.{control_variable_names}
use gmrender_resurrect_silan.Connmgr.Service.{connmgr_variable_names}
use gmrender_resurrect_silan.Scpd.{Described, generate_scpd}
use gmrender_resurrect_silan.Scpd.Tables.Transport.{transport_service}
use gmrender_resurrect_silan.Scpd.Tables.Control.{control_service}
use gmrender_resurrect_silan.Scpd.Tables.Connmgr.{connmgr_service}
use gmrender_resurrect_silan.Scpd.Reading.{related_variables, declared_variables}
use gmrender_resurrect_silan.Scpd.Complete.{is_closed, is_complete}
use gmrender_resurrect_silan.Scpd.Aborts.{incomplete-aborts}
use gmrender_resurrect_silan.Scpd.Related.{is_in, related-declared}

transport_is_closed : is_closed transport_service ≡ true
transport_is_closed = refl

control_is_closed : is_closed control_service ≡ true
control_is_closed = refl

connmgr_is_closed : is_closed connmgr_service ≡ true
connmgr_is_closed = refl

transport_is_complete : is_complete transport_service ≡ true
unfolding transport_variable_names
transport_is_complete = refl

control_is_complete : is_complete control_service ≡ true
unfolding control_variable_names
control_is_complete = refl

connmgr_is_complete : is_complete connmgr_service ≡ true
unfolding connmgr_variable_names
connmgr_is_complete = refl

related-declared_example :
    (doc : Element) × (generate_scpd control_service ≡ done doc)
    × ((t : Text)
        → is_in t (related_variables doc) ≡ true
        → is_in t (declared_variables doc) ≡ true)
related-declared_example = related-declared control_service control_is_closed control_is_complete

-- The RenderingControl service, were its variables not named.
abbrev unnamed_service : Described
unnamed_service = record control_service { described_names = λ i. none }

incomplete-aborts_example : generate_scpd unnamed_service ≡ fault assertion
incomplete-aborts_example = incomplete-aborts unnamed_service refl
