-- ===== src/Lib.antt =====
-- The Go libraries under lib/util on which the network functions of free5GC rest, and packets of the
-- test harness.
--
-- The parts and their files. Each network function calls these packages on its own; among them, the
-- address pool of a subnet stands on the pool of numbers.
--
-- - IpPool models lib/util/ippool. IpPool/Segment and IpPool/Pool are lazyReusePool.go: segment,
--   relativePosisionOf, split and extendLast are `Segment`, `relative_posision_of`, `split` and
--   `extend_last`; NewLazyReusePool, Allocate, Use, Free and Reserve are `new_lazy_reuse_pool`,
--   `allocate`, `use_value`, `free` and `reserve`. A linked list of segments is a list. The modules
--   below IpPool/Pool hold the proofs: how often a number is free (Multiplicity), what each operation
--   makes of that (Allocate, Use, Free, Reserve), the invariant (Invariant), the order of the segments
--   (Order), a specification over the set of the free numbers (Spec) and histories of clients
--   (History). IpPool/Subnet is ip_pool.go: NewIPPool, Reallocate, Allocate, Exclude and Release are
--   `new_ip_pool`, `reallocate`, `allocate_ip`, `exclude` and `release`, over addresses as bytes.
-- - IdGenerator models lib/util/idgenerator: NewGenerator, Allocate and FreeID are `new_generator`,
--   `allocate` and `free_id`, with the wrap-around of an int64. The loop of Allocate runs on fuel, one
--   more than the range is long; IdGenerator/Loop shows that it ends within that where the offset lies in
--   the range. IdGenerator/Laws has what a generator in good order promises.
-- - Fsm models lib/util/fsm: NewFSM and SendEvent are `new_fsm` and `send_event`. A callback takes and
--   gives back the state and the part of the program that it may touch. Fsm/State is state.go, and Fsm/Dot
--   is ExportDot, `export_dot`.
-- - Pfcp models lib/util/pfcp: ParseOuterHeaderCreation is `parse_outer_header_creation`.
-- - Milenage models lib/util/milenage: f1 and f2345 over a cipher that is an argument, and the exported
--   functions on top of them, GenerateAKAParameters, GenerateKeysWithAUTN, GenerateAUTS, ValidateAUTS
--   and GenerateOPc, as `generate_aka_parameters`, `generate_keys_with_autn`, `generate_auts`,
--   `validate_auts` and `generate_opc`; GenerateOPcFromHex is `generate_opc_from_hex` of
--   Milenage/HexText. Milenage/Blocks and Milenage/Parts have the lengths and the
--   parts of what they compute, Milenage/Agreement how both sides of an exchange fit, Milenage/Opc the
--   rotations and OPc.
-- - UeAuth models lib/util/ueauth: KDFLen and GetKDFValue are `kdf_len` and `get_kdf_value`, over an
--   HMAC that is an argument; UeAuth/Input has what the message tells of the parameters.
-- - UeKeys models the derivation of the keys of 5G AKA in test/ranUe.go, which stands on Milenage and
--   UeAuth: DeriveRESstarAndSetKey is `derive_res_star_and_set_key`. UeKeys/Chain and UeKeys/Agreement
--   have what the keys are and how they fit those of the network.
-- - Metrics models lib/util/metrics: the helpers of utils; Metrics/Init is Init of metrics.go
--   with the collectors of the packages sbi, nas and ngap, over one state of their variables and a
--   registry that is an argument; Metrics/Nas is nas/message.go, which counts NAS messages, where a
--   message is which pointers of the NAS library's structure are nil; Metrics/Causes and Metrics/Ngap are
--   the package ngap, over the constants of the NGAP library; Metrics/Sbi is the package sbi with
--   InboundMetrics of middleware.go; Metrics/Server is Server.go, with the events of a run of the server.
--   Metrics/Nas/Safe, Metrics/Init/Ready, Metrics/Causes/Labels, Metrics/Sbi/Balance and
--   Metrics/Server/Started have their theorems, Metrics/Init/Plan what Init is to register.
-- - HttpWrapper models lib/util/httpwrapper, on which the server of the metrics stands: NewHttp2Server is
--   `new_http2_server`, over the opening of a file.
-- - Logger models lib/util/logger: createLogFile, renameOldLogFile, LogFileHook and Fire are
--   `create_log_file`, `rename_old_log_file`, `log_file_hook` and `fire_hook`, over a record of operations
--   of the operating system. Logger/Gin has NewGinWithLogrus with its middlewares, over a record of what
--   they read and change of gin's context; a middleware is a function of what comes behind it. The
--   theorems are in Logger/Rotation, Logger/Gin/Recovery and Logger/Gin/Secrets.
-- - Version and MapStruct model lib/util/version and lib/util/mapstruct.
-- - Packets models parts of the test harness: the NAS envelope of test/packet.go and test/security.go
--   (Packets/Envelope), the GTPv1 header of test/gtp.go (Packets/Gtp), the internet checksum of
--   test/rawudp.go (Packets/Checksum), whose second loop has a fuel of two rounds, which are enough, and
--   BuildRawUdpIp of that file (Packets/RawUdp).
-- - NasSecurity models test/security.go, over a record of the NAS library: NASEncode and
--   NASEnvelopeEncode are `nas_encode` and `nas_envelope_encode`, and NASDecode is `nas_decode` of
--   NasSecurity/Decode. A count changes with the UE, which each of them gives back; the payload that the
--   first two return beside an error is part of their error. The theorems are in
--   NasSecurity/Counts, NasSecurity/Fresh and NasSecurity/Mac.
-- - SafeChannel models lib/util/safe_channel: NewSafeCh, Send and Close are `new_safe_ch`, `send` and
--   `close`, over a Go channel with a buffer; SafeChannel/Fifo has the histories.
-- - Mongo models lib/util/mongoapi. Mongo/Driver is a record of the calls of the MongoDB driver, of
--   encoding/json and of json-patch that the code makes; Mongo/Api has the helpers getCollation,
--   findOneAndDecode, getOrigData and checkDataExisted, and Mongo/Restful the functions RestfulAPI…
--   and Drop, as `get_one`, `put_one`, `put_many` and so on. Mongo/Server says what
--   FindOne, UpdateOne with `$set` and InsertOne do to the documents of a collection where they report
--   no error: any call may report one, an inserted document may have got an `_id`, and of keys with a dot
--   nothing is said. The theorems of Mongo/Upsert, Mongo/PutMany and Mongo/Patch rest on it; Mongo/Memory is a database
--   in memory that keeps it.
-- - FlowDesc models lib/util/flowdesc/ip_filter_rule.go: the rule and the parsers of its fields are in
--   FlowDesc, Encode and Decode in FlowDesc/Codec. FlowDesc/Ports, FlowDesc/Address and FlowDesc/Parts
--   have the fields one by one, FlowDesc/RoundTrip the whole rule.
-- - Validator models lib/util/validator: IsValidSupi is `is_valid_supi`, and so on; the regular
--   expressions are written with the forms of Text/Regex/Forms. Validator/Identity has what they accept.
-- - Text has what is used of the Go standard library on the bytes of ASCII texts: decimal numbers of
--   strconv (Text/Decimal), Fields, Split, Join, ToLower and HasPrefix of strings (Text/Words), HasSuffix
--   and Contains (Text/Search), Split, Clean and Join of filepath (Text/Path),
--   hexadecimal text (Text/Hex), and regexp by derivatives, with a proof that a match is what the
--   expression stands for (Text/Regex).
-- - Prelude has what they share: tests and lists over the native numbers, integers, bytes and bit
--   operations, `Outcome`, a result that is a value, an error or a panic, and `Run`, steps that also
--   change a state.
--
-- Numbers. A Go `int` that is made from `uint32` values is a natural number, and so is an offset. The
-- conversions to `uint32` and the complement of a mask keep their powers of two. The bytes of an
-- address are natural numbers, put together and taken apart by `be_uint32` and `put_uint32`.
--
-- Concurrency. Every method of the pool, the generator and the state holds a lock throughout, so that
-- a run of several goroutines is a sequence of whole calls.
--
-- What is not modelled: what the packages print and log but for the lines of the logger itself, and the
-- text of errors; net.ParseCIDR, net.ParseIP, net.IP.String, the database, Prometheus, gin, net/http, the
-- operating system, HMAC-SHA-256 and crypto/aes, which are parameters; the layout of a log line, which the
-- formatter of an external library makes; and the rest of the test harness, which starts network
-- functions and fills structures of the NGAP and NAS libraries.
pub mod Prelude
pub mod IpPool
pub mod IdGenerator
pub mod Fsm
pub mod Pfcp
pub mod Milenage
pub mod Packets
pub mod SafeChannel
pub mod Mongo
pub mod Text
pub mod Validator
pub mod FlowDesc
pub mod UeAuth
pub mod Metrics
pub mod HttpWrapper
pub mod Logger
pub mod Version
pub mod MapStruct
pub mod NasSecurity
pub mod UeKeys
