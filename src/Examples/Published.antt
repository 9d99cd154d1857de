-- ===== src/Examples/Published.antt =====
-- The device of src/upnp_renderer.c with all its documents.
use gmrender_resurrect_silan.Base.{none, Text, codes}
use gmrender_resurrect_silan.Webserver.{LocalFile}
use gmrender_resurrect_silan.Device.Description.{Descriptor}
use gmrender_resurrect_silan.Device.Renderer.{Build, upnp_renderer_descriptor}
use gmrender_resurrect_silan.Examples.{example_ixml}

abbrev example_build : Build
example_build = record {
  package_string = codes "gmediarender 0.0.7";
  package_name = codes "gmediarender";
  gm_compile_version = codes "0.0.7";
}

abbrev example_device : Descriptor
example_device = upnp_renderer_descriptor example_build (codes "silan") (codes "1")

abbrev no_file : Text → LocalFile
no_file name = record { st_size = none; bytes = none }
