-- ===== src/Lib.antt =====
-- Verification of the renderer: the parts of the program between libupnp and the output module.
--
-- A client sends action requests to the services of the device. `handle_action_request`
-- (src/upnp_device.c) finds the action, opens a transaction of the service's collector, calls the
-- handler, completes the response and closes the transaction. A handler reads its arguments from the
-- request, calls the output layer, and writes state variables. The collector hears of every write
-- and, when no transaction is open, sends the writes as one LastChange event. The output module calls
-- back when a title ends: the Silan module hears of it from the player of the board, in a message.
-- Keys of the remote control act on the RenderingControl service, which acts on the output. At the
-- start the services are described in documents that the web server serves, and the types that the
-- output module registers become the ProtocolInfo of the ConnectionManager service.
--
-- Files:
--   Base        C strings as lists of bytes, `int`, tables, and how a C function ends: with a value,
--               or by a failed assertion, a second lock of a mutex, or a read through NULL
--   Xml         src/xmldoc.c: documents as trees; linking a node returns the new parent
--   XmlEscape   src/xmlescape.c: xmlescape_real and xmlescape
--   Variables   src/variable-container.c: VariableContainer (Model, Change), UPnPLastChangeBuilder
--               (Builder), UPnPLastChangeCollector (Collector) and its bit set (Mask). Quiet, Frame,
--               Nesting, Locking, Writes and Transaction prove what a change and a transaction do;
--               Document describes LastChange documents and what is sent of them without the
--               builder; View is the interface to the services: variables as a function, a mutex
--               and a count
--   Action      src/upnp_device.c: upnp_get_string, upnp_set_error, upnp_add_response and
--               upnp_append_variable, over the struct action_event of src/upnp.h
--   Output      src/output.c and src/output_module.h
--   Decimal     %d and %02d of printf and scanf, and atoi
--   Time        src/upnp_transport.c: print_upnp_time and parse_upnp_time
--   Transport   src/upnp_transport.c: tables (Table), state (Model), handlers (Actions), start
--               (Setup), and handle_action_request of src/upnp_device.c with find_action of
--               src/upnp.c (Request). Player is what the service promises, without mutex, collector
--               and failure; Simulation relates the two, Refine goes through the handlers, Session
--               and Reach put the service together, Consistency, Moves, Feedback and
--               Failure say what holds of it
--   Control     src/upnp_control.c
--   Silan       src/output_silan.c: silan_data and the amplifier (Model), output_silan_send_cmd and
--               output_silan_recv_cmd (Commands), the functions of silan_output (Player),
--               output_silan_init (Start), output_silan_loop (Watch). Refine has what each of these
--               keeps and brings about; Session puts calls, messages and rounds of the loop in any
--               order, with the RenderingControl service behind the keys
--   Connmgr     src/upnp_connmgr.c: register_mime_type (MimeTypes), the start and the actions
--               (Service), with their proofs in Registered and Info
--   Webserver   src/webserver.c: registered and opened files; Reading and Serving say what reads give
--   Scpd        src/upnp.c: the SCPD document; Tables has the tables of src/upnp_transport.c,
--               src/upnp_control.c and src/upnp_connmgr.c that it is generated from, and Reading,
--               Declared and Related what a client reads out of it. A text that is NULL fails an
--               assertion (Aborts); Complete says when none is, and Whole is the document then
--   Device      src/upnp_device.c: find_service, handle_var_request, handle_subscription_request
--               (proofs in Requests and Evented), the device description and the registration of
--               the documents (Description, Published), over the device of src/upnp_renderer.c
--               (Renderer)
--   Examples    concrete inputs
--
-- State is passed explicitly. A handler of the AVTransport service maps a context (the service with
-- its collector and mutex, `transport_state_`, the output and the event of the action) to a context
-- and a result, or to a fault. Steps are whole requests and whole calls of the output, one
-- after another; two that run at once on different threads are not modelled.
--
-- Bounds: VariableContainer_change and the collector call each other, and `change` takes the number
-- of calls that may be nested: 2, for a change and for the change of LastChange that it may lead to.
-- Texts are shorter than 2^31 / 5 bytes, numbers in `int` do not overflow, and memory is available.
-- The bit set of a collector is read digit by digit. `digits` has more fuel than its number has
-- digits.
--
-- Parameters: the printer of ixml (Ixml), the functions of libupnp that build a response or accept
-- a subscription (Upnp), and the output module with the state of its device (OutputModule).
-- Nothing is assumed of what they return, but that a document can be printed where documents are
-- registered or a subscriber is answered. The Silan module's board is a parameter as well: what
-- msgsnd says, what is received in a round of waiting (Ipc), the files of settings and the
-- descriptors (Boot), and the event and the lock that a round of the loop reads (Round). Its
-- messages from the player are handled between steps, and in the rounds of waiting. `died` keeps
-- the first fault of the module; nothing is meant by what follows it.
--
-- Not modelled: freeing of memory, logging and the functions that only print, threads within a step,
-- output_loop, the parts of upnp_device_init that call libupnp, event_handler, and src/main.c, which
-- reads options. The drivers in tmp are code of the kernel and of LIRC that this program does not
-- build.
pub mod Base
pub mod Xml
pub mod XmlEscape
pub mod Variables
pub mod Action
pub mod Output
pub mod Decimal
pub mod Time
pub mod Transport
pub mod Control
pub mod Connmgr
pub mod Webserver
pub mod Scpd
pub mod Silan
pub mod Device
pub mod Examples
