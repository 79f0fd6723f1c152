-- ===== src/Lib.antt =====
-- NetAudit, a local network auditing tool (backend/netaudit): a model of its core logic and the
-- theorems about it.
--
-- Struct is Python's `struct` (pack and unpack of fields of fixed width). Pcap.Format and
-- Pcap.Ng are backend/netaudit/pcap/format.py: the writer and reader of libpcap files, and the
-- pcapng reader. A file is the list of its bytes; a generator is the list of what it yields with
-- its end. Each function keeps the name of the Python function that it translates, without a
-- leading underscore; pieces of a long function are definitions of their own.
--
-- The record and block loops take fuel: one unit for each byte of the file and a few more, which
-- is enough since a record takes at least 16 bytes and a block at least 12.
--
-- Packet.Parse is backend/netaudit/capture/parse.py, IPv4 packets as a raw socket delivers them,
-- and Packet.Dissect is backend/netaudit/pcap/dissect.py, which reads the frames of an imported
-- capture. `none` stands for an exception of `struct.unpack` or of an index.
--
-- Pcap.Bpf is backend/netaudit/pcap/bpf.py, the capture filters: Pcap.Bpf the tokeniser and the
-- trees, Pcap.Bpf.Parser the parser, Pcap.Bpf.Evaluate the evaluator. What the parser asks of
-- the standard library (`str.isdigit`, `int`, `ipaddress`) is the record Lib, a parameter. The
-- parser's fuel is six units for each token and six more.
--
-- Baselines is backend/netaudit/baselines: Baselines.Store the tables of store.py,
-- Baselines.Snapshot and Baselines.Diff the captures and the differences of service.py,
-- Baselines.Monitor the monitor of monitor.py, whose state is the tables with the monitor's own
-- fields. A run meets surroundings (clock, drawn id, the providers' report or exception, the
-- dispatcher's exception), and Baselines.Runs states its ways as a step relation; a history is a
-- list of runs, wake-up calls and changes of the schedule.
--
-- Alerts is backend/netaudit/alerts: Alerts.Store the tables of store.py, Alerts.Service the
-- configuration, the test alerts and the dispatch of service.py, with a log of the calls of the
-- senders. The desktop sender, the POST to a channel's address and the validation of addresses
-- are parameters.
--
-- Scores is backend/netaudit/posture/scoring.py and backend/netaudit/threat/scoring.py, with
-- halves and quarters in place of floating-point numbers.
--
-- LanScan is backend/netaudit/lanscan/validation.py, and LanScan.Job
-- backend/netaudit/lanscan/service.py: the checks of a scan request, and the run of a scan with
-- its cancel event and its exceptions.
--
-- Threat is backend/netaudit/threat/: Threat.Store the tables of threat/store.py, Threat.Engine
-- the run of the detectors and the life cycle of threats in threat/engine.py, Threat.Timeline
-- its timeline, and Threat.Settings its patch_detector. What a detector reports is a parameter,
-- as is the id that is made of its findings.
--
-- Alerts.Enrichment is backend/netaudit/alerts/enrichment.py with its tables in alerts/store.py:
-- Alerts.Enrichment.Responses the filter of addresses and the responses,
-- Alerts.Enrichment.Lookup one lookup, Alerts.Enrichment.Run the service's enrich and
-- update_config, with a log of what is sent.
--
-- Export is backend/netaudit/export/siem.py: Export.Escapes the escapes of values and Export.Cef
-- the lines of to_cef. Export.Reader is a reader of such lines, which the code does not have; it
-- says what the escapes are for.
--
-- Pcap.Import is backend/netaudit/pcap/import_pipeline.py up to the parsed packets, over the
-- readers of Pcap.Format and Pcap.Ng and the dissector of Packet.Dissect; Pcap.Sessions has the
-- tables of pcap/session_store.py and import_upload.
--
-- Pcap.Synth is backend/netaudit/pcap/synth.py, the frames that an export makes of stored
-- fields. The fuel of its loop over the carries is the total itself, since each round makes the
-- total smaller (Pcap.Headers).
--
-- Alerts.Webhook is backend/netaudit/alerts/webhook.py, the way of every request that leaves the
-- backend. The alert service and the enrichment take its results as parameters. Alerts.Guarded
-- is about what it calls, and Alerts.Addresses has the lemmas on its sorted addresses.
--
-- Left out: the browser application, HTTP and WebSocket glue, the capture backends and probes of
-- the operating system, report templates, and the parts of the backend that the modules above do
-- not name.
pub mod Common
pub mod Struct
pub mod Pcap
pub mod Packet
pub mod Baselines
pub mod Alerts
pub mod Scores
pub mod LanScan
pub mod Threat
pub mod Export
pub mod Tests
