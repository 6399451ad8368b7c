-- ===== src/Lib.antt =====
-- miniupnpd with an SDN controller: a UPnP IGD daemon in C that takes port mapping requests from its
-- clients and, in the SDN build, carries them out through an ONOS controller. The parts modelled here
-- are those between a client's bytes and the controller.
--
-- miniupnpd/upnppermissions.c decides which mappings a client may ask for: Permissions.antt has the
-- check (check_upnp_rule_against_permissions) and the bitmap of permitted ports
-- (get_permitted_ext_ports), Permissions/Line.antt the parser of a rule line (read_permission_line), whose pieces are in
-- Permissions/Line/Parts.antt.
-- An in_addr_t is the number that its bytes spell in network order. inet_aton is a parameter.
--
-- miniupnpd/minixml.c parses the XML of a request: MiniXml.antt has parseatt, parseelt and parsexml,
-- cut into one function for each loop or branch. A pointer is an offset, a read outside the buffer is
-- a fault, and an early return is a stop (MiniXml/Effects.antt). Each loop has fuel for two more rounds
-- than the document has bytes; running out of it is an outcome of its own, which the theorem excludes.
--
-- miniupnpd/upnpreplyparse.c collects a request's arguments by the parser's callbacks:
-- ReplyParse.antt, a fold over the parser's events. malloc is a parameter.
--
-- miniupnpd/asyncsendto.c keeps datagrams until their time or until their socket is ready:
-- AsyncSend.antt has a function for each of its functions over the list send_list as a value. The
-- answers of sendto, the clock, malloc and select are parameters, numbered by the call. The loop of
-- finalize_sendto has fuel for its rounds, which the clock bounds.
--
-- miniupnpd/sdn/onosclient.c talks to the ONOS controller: Sdn/Http.antt has the requests that are
-- written and the status that is read, Sdn/Onos.antt the handlers of mongoose's events and the loop on
-- mg_mgr_poll, over the events that the network brings (deliver, poll_loop, exchange). The loop is
-- recursion on the list of polls and has no result when the list ends first.
--
-- miniupnpd/sdn/iptcrdr.c is the firewall back end of the SDN build: Sdn/Fields.antt reads the fields of
-- an answer, Sdn/Rules.antt adds mappings and asks for the status, Sdn/Lookup.antt reads and deletes
-- one mapping, Sdn/Ranges.antt those in a range, and Sdn/Descs.antt is the list of descriptions.
-- json-c is the record of parameters JsonC of Sdn/Json.antt, whose one law, where a theorem needs it, is
-- that a null object has no fields. An int that the C code leaves uninitialised is an argument `stale`.
-- An operation's result is its return value with the variables that it writes, and none where its loop
-- does not end.
--
-- miniupnpd/upnpredirect.c is the facade of redirections, here in its build for a local firewall on
-- Linux, with a lease file that stores Unix times and with events. Redirect/Firewall.antt is the back
-- end that it calls, as an interface with laws, which speak of the rules as the back end lists them; Redirect/LeaseFile.antt writes, removes and reads the
-- lines of the lease file, Redirect/Facade.antt makes, deletes and shows redirections (upnp_redirect
-- and the functions beside it) over the variables of the record Globals, Redirect/Reload.antt loads
-- the lease file, and Redirect/Sweep.antt removes expired and unused rules. The loops over the file
-- have a byte of fuel for each of its bytes, since each round takes one at least; the loop over the
-- rules has fuel for one round more than there are rules. What the clocks and the file system answer
-- is in the record Env. check_upnp_rule_against_permissions is the one of Permissions.antt.
--
-- miniupnpd/codelength.h codes lengths in groups of seven bits: CodeLength.antt.
--
-- miniupnpd/natpmp.c answers NAT-PMP requests over the same facade: NatPmp.antt has the integers of
-- macros.h, addr_is_reserved of getifaddr.c and the answer with the public address,
-- NatPmp/Mapping.antt the removal of mappings and the search for a port, and NatPmp/Packet.antt a
-- request as a whole (ProcessIncomingNATPMPPacket) and the notification. The search has fuel for a
-- round for each 16-bit port, which it needs at most; the removal has as much fuel as it is given, and
-- one round more than there are rules is enough.
--
-- miniupnpd/upnpevents.c sends events to subscribers. The subscribers and the notifications point at each
-- other: Events/Cells.antt is a list of structures at their addresses, and Events/Lists.antt the calls
-- on the two lists (upnpevents_addSubscriber, upnpevents_renewSubscription,
-- upnpevents_removeSubscriber, upnp_event_var_change_notify), where a pointer to freed memory is a
-- fault. Events/Fds.antt is upnpevents_selectfds and upnpevents_processfds, and Events/Calls.antt runs
-- calls one after another; Events/Present.antt and Events/Pending.antt are what a loop has still to go
-- to. Events/Callback.antt is how a notification reads the URL that a subscriber gave
-- (upnp_event_notify_connect), and Events/Notify.antt takes one notification through its states
-- (upnp_event_process_notify and what it calls), with the answers of the system as a record. The loop
-- that makes the buffer has fuel for two rounds, which it needs at most.
--
-- miniupnpd/options.c reads the configuration file: Config.antt is readoptionsfile and freeoptions, with
-- the offsets of the values in the string repository, and the permission rules through
-- read_permission_line. The loop over the lines has a byte of fuel for each of the file's, and each
-- round takes one at least.
--
-- miniupnpd/pcpserver.c answers PCP requests: Pcp.antt is the information of a request (pcp_info_t) and the
-- reading of its header, Pcp/Options.antt the options (parsePCPOptions), Pcp/Validate.antt the checks
-- (ValidatePCPMsg, CheckExternalAddress), Pcp/Map.antt CreatePCPMap and DeletePCPMap, and
-- Pcp/Packet.antt processPCPRequest, createPCPResponse and ProcessIncomingPCPPacket; a read outside the
-- packet is a fault. The build is the one without PEER, SADSCP, FLOWP and pinholes. The options have a
-- byte of fuel for each of theirs, the search for a port a round for each 16-bit port; the removal
-- needs more fuel than an index at which the firewall tells no rule.
--
-- Not modelled: the daemons for HTTP, SOAP and SSDP and the code of the other firewall back ends; the
-- network and the kernel are outside the model.
pub mod Base
pub mod Permissions
pub mod MiniXml
pub mod ReplyParse
pub mod AsyncSend
pub mod Sdn
pub mod CodeLength
pub mod Redirect
pub mod NatPmp
pub mod Events
pub mod Config
pub mod Pcp
