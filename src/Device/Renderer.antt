-- ===== src/Device/Renderer.antt =====
-- The device of src/upnp_renderer.c: its icons, its descriptor and its three services.
use gmrender_resurrect_silan.Base.{some, List, [], ◌∷◌, ◌++◌, Text, codes}
use gmrender_resurrect_silan.Base.Int.{pos}
use gmrender_resurrect_silan.Scpd.Tables.Transport.{transport_service}
use gmrender_resurrect_silan.Scpd.Tables.Control.{control_service}
use gmrender_resurrect_silan.Scpd.Tables.Connmgr.{connmgr_service}
use gmrender_resurrect_silan.Device.Description.{Icon, Published, Descriptor}

abbrev pub icon1 : Icon
icon1 = record {
  width = pos 64;
  height = pos 64;
  depth = pos 24;
  url = codes "/upnp/grender-64x64.png";
  mimetype = codes "image/png";
}

abbrev pub icon2 : Icon
icon2 = record {
  width = pos 128;
  height = pos 128;
  depth = pos 24;
  url = codes "/upnp/grender-128x128.png";
  mimetype = codes "image/png";
}

-- renderer_icon
abbrev pub renderer_icon : List Icon
renderer_icon = icon1 ∷ icon2 ∷ []

abbrev pub published_transport : Published
published_transport = record {
  service_type = codes "urn:schemas-upnp-org:service:AVTransport:1";
  published_id = codes "urn:upnp-org:serviceId:AVTransport";
  scpd_url = codes "/upnp/rendertransportSCPD.xml";
  control_url = codes "/upnp/control/rendertransport1";
  event_url = codes "/upnp/event/rendertransport1";
  described = transport_service;
}

abbrev pub published_connmgr : Published
published_connmgr = record {
  service_type = codes "urn:schemas-upnp-org:service:ConnectionManager:1";
  published_id = codes "urn:upnp-org:serviceId:ConnectionManager";
  scpd_url = codes "/upnp/renderconnmgrSCPD.xml";
  control_url = codes "/upnp/control/renderconnmgr1";
  event_url = codes "/upnp/event/renderconnmgr1";
  described = connmgr_service;
}

abbrev pub published_control : Published
published_control = record {
  service_type = codes "urn:schemas-upnp-org:service:RenderingControl:1";
  published_id = codes "urn:upnp-org:serviceId:RenderingControl";
  scpd_url = codes "/upnp/rendercontrolSCPD.xml";
  control_url = codes "/upnp/control/rendercontrol1";
  event_url = codes "/upnp/event/rendercontrol1";
  described = control_service;
}

-- The services of upnp_renderer_init.
abbrev pub upnp_services : List Published
upnp_services = published_transport ∷ published_connmgr ∷ published_control ∷ []

-- What the build writes: PACKAGE_STRING, PACKAGE_NAME and GM_COMPILE_VERSION.
pub record Build : Type 0 where
  pub package_string : Text
  pub package_name : Text
  pub gm_compile_version : Text

-- render_device with its services, as upnp_renderer_descriptor names it
unfoldable pub upnp_renderer_descriptor : Build → Text → Text → Descriptor
upnp_renderer_descriptor build friendly_name uuid = record {
  device_type = codes "urn:schemas-upnp-org:device:MediaRenderer:1";
  friendly_name = friendly_name;
  manufacturer = codes "Ivo Clarysse, Henner Zeller";
  manufacturer_url = codes "http://github.com/hzeller/gmrender-resurrect";
  model_description = build.package_string;
  model_name = build.package_name;
  model_number = build.gm_compile_version;
  model_url = codes "http://github.com/hzeller/gmrender-resurrect";
  serial_number = codes "1";
  udn = codes "uuid:" ++ uuid;
  upc = [];
  presentation_url = [];
  icons = some renderer_icon;
  services = upnp_services;
}
