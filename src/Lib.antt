-- ===== src/Lib.antt =====
-- libzbc, the library for zoned block devices (include/libzbc/zbc.h, lib/).
--
-- An application calls lib/zbc.c, which checks and cuts up the request and calls a backend through a
-- table of functions, struct zbc_drv. The SCSI backend lib/zbc_scsi.c writes command blocks with
-- the helpers of lib/zbc_sg.h, sends them with zbc_sg_cmd_exec of lib/zbc_sg.c, which calls the
-- kernel, and parses the replies. The ATA backend lib/zbc_ata.c does the same with ATA commands in
-- pass-through blocks; it may use the transfers of the SCSI backend, and the SCSI backend its
-- capacity.
--
-- Base        the tests and the fixed-width arithmetic of C, lists as arrays, signed results
-- Bytes       lib/zbc_sg.c, lib/zbc_sg.h: big-endian fields of a buffer
-- Device      include/libzbc/zbc.h, lib/zbc.h: structures, flags, sector and block conversion,
--             and Device/Driver the table of functions, a record over a state that calls change
-- Zones       lib/zbc.c: zbc_report_zones, zbc_list_zones, zbc_zone_group_op, zbc_zone_operation;
--             Zones/Spec states what a driver promises of its reports, in the states that a predicate
--             of the client admits and that the reports keep
-- Iov         lib/zbc.c, lib/zbc.h: zbc_iov_count, zbc_iov_convert, zbc_map_iov
-- Rw          lib/zbc.c: zbc_pread, zbc_preadv, zbc_pwrite, zbc_pwritev and the functions below
-- Domains     lib/zbc.c: zbc_report_domains, zbc_list_domains
-- Realms      lib/zbc.c, include/libzbc/zbc.h: zbc_report_realms, zbc_list_zone_realms, realm items
-- Activation  lib/zbc.c: zbc_zone_activate, zbc_zone_query, zbc_zone_query_list and their kin
-- Open        lib/zbc.c: zbc_open, zbc_close, zbc_device_is_zoned, zbc_get_domain_info; Open/File the
--             opens and closes of lib/zbc_scsi.c and lib/zbc_ata.c, Open/Table the tables of
--             functions of the two backends
-- Utils       lib/zbc_utils.c: attributes in sysfs
-- Names       lib/zbc.c: the names of types, conditions and errors, the log level
-- Sg          lib/zbc_sg.c, lib/zbc_sg.h: a command's set-up, its execution and outcome, sense data,
--             test unit ready, the largest transfer; the kernel is a function over a state of its own
-- Scsi        lib/zbc_scsi.c: zone operations, zone, domain and realm reports, the capacity,
--             activation and query, mode pages, inquiry, characteristics, device information,
--             statistics, reads, writes, flushes; Scsi/Blocks and
--             Scsi/Layout describe a drive by its zones in blocks, for both backends
-- Ata         lib/zbc_ata.c: words and addresses, log pages, features, sense data, classification,
--             device information and capacity, zone, domain and realm reports, zone operations,
--             activation, reads, writes, flushes
-- Tools       tools/: Tools/ReadLine and Tools/ReadZone read_zone/zbc_read_zone.c,
--             Tools/WriteLine, Tools/WriteZone and Tools/WriteMain write_zone/zbc_write_zone.c,
--             Tools/ZoneOp zone_op/zbc_zone_op.c, Tools/Activate and
--             Tools/ActivateLine zone_activate/zbc_zone_activate.c, Tools/Control
--             dev_control/zbc_dev_control.c, each from the command line to the exit code, over the
--             library's functions
-- Examples    a small drive, and the theorems at concrete inputs
--
-- A number of C is a natural number, reduced to the width of its type where an operation may leave
-- it; a signed result is an integer; an errno value is that of Linux. An array argument is the list
-- of its elements before the call, and the list after it is part of the result. An uninitialised
-- variable is an argument named `junk`. The tables of functions, the kernel, the calls on files, the
-- resolution of a path, the page size and the success of an allocation are arguments; so are, for
-- the tools, the conversions of texts to numbers and whether a signal has come.
--
-- Loops run on the number of rounds that remain. zbc_report_zones gets as many rounds as the array
-- has elements, the sense data walk as many as there are bytes to walk, the transfer loops and
-- zbc_map_iov as many as there are sectors: a round that does not end the loop takes one at least,
-- and where the rounds are used up the loop's test is false. The one exception is the sense data
-- walk, where the code leaves its 64-byte buffer for descriptors of more than 56 bytes and for
-- malformed ones: the walk of the model ends with the bytes it is given. The loops of the tools that
-- read and write a zone get one round more than the part of the zone has sectors, as each takes one
-- at least.
--
-- A read behind an array, which C leaves undefined, gives 0 or an empty element: the realm items of
-- a reply whose descriptors are too short for them, and the item of a domain above the fourth.
--
-- Not modelled: the version string and the printing of the device information; the tools that only
-- print reports, the viewers and the test programs; debug and error messages, and the times that
-- the tools print. The device information does not keep the vendor string, which Scsi/Vendor and
-- Ata/Vendor compute.
pub mod Base
pub mod Bytes
pub mod Device
pub mod Zones
pub mod Iov
pub mod Rw
pub mod Domains
pub mod Realms
pub mod Activation
pub mod Open
pub mod Utils
pub mod Names
pub mod Sg
pub mod Scsi
pub mod Ata
pub mod Tools
pub mod Examples
