-- ===== src/Lib.antt =====
-- Verification of Cray PowerAPI: the library of power objects and the daemon powerapid that changes
-- power attributes for its clients.
--
-- The program. An application calls the library (lib/). The library hands out opaque references
-- (lib/opaque.c) to structures such as groups of objects (lib/group.c), and keeps the values that
-- an attribute can have in growing arrays (lib/pwr_list.c). Attributes of objects and of groups are
-- read and set through a plugin's functions (lib/attributes.c, lib/object.c), which reach control
-- files under paths that a configuration file can change (lib/utility.c). To change an attribute the
-- library sends a set request to the daemon (daemon/). The daemon's main thread receives messages
-- (daemon/powerapid.c), keeps a structure for every connection (daemon/pwrapi_socket.c) and queues
-- set requests; its worker thread takes them from the queue (daemon/pwrapi_worker.c), keeps the
-- requests for each control file in the order of their priority (daemon/pwrapi_set.c), and writes
-- the value of the first one to the file. When a connection ends, its requests are rolled back.
--
-- The files.
--   Base: lists, tests, numbers as text, and `Outcome`, whose `fault` is undefined behaviour, such
--     as a read of freed memory. Types: enumerations of include/cray-powerapi/types.h.
--   Glib: GSequence, GSList and GHashTable as records of operations with their documented laws,
--     which the models take as parameters; Glib.Concrete fills them.
--   Group: lib/group.c. Group.Walk has the loops of group_union, group_intersection,
--     group_difference and group_sym_difference, Group.Ops the functions group_* around them with
--     their tests for NULL, group_insert_obj and group_remove_obj. Group.Sets has the same
--     operations on lists, Group.Refine shows that the loops compute them, and Group.Algebra and
--     Group.Member have the theorems. Group.Api and Group.Calls have the functions PWR_Grp* with
--     context_new_group and context_del_group of lib/context.c, over the record `World` of all
--     groups; Group.References, Created, Combined, Objects and Destroyed have their theorems.
--   PwrList: lib/pwr_list.c. PwrList.Array has the lists of integers and doubles, PwrList.Strings
--     the list of strings; Growth, Extremes and Access have the laws.
--   Object: lib/object.c and the objects of lib/object.h. Object.Tree has the tree of objects and the
--     functions of a plugin, Object.Values the reading and setting of attributes (get_os_id,
--     *_attr_get_value, *_attr_set_value, forward_attr_set_value); Object.Flat says what setting an
--     attribute on a whole tree comes to, Object.Verdict and Object.Forward show it. Object.Names has
--     the tables of names and descriptions, Object.Bits the masks (lib/bitmask.c) and lists of
--     attributes, Object.Meta and Object.MetaApi the metadata; Formats, Lengths, Listed and Named
--     have their theorems.
--   Attribute: lib/attributes.c. Attribute.Status has the statuses with context_new_status and
--     context_del_status of lib/context.c, Attribute.Single the functions PWR_ObjAttr*,
--     Attribute.Group the functions PWR_GrpAttr*, over the record `Library` of all memory; Reports,
--     Queue, Fill, Values, OverGroup, Popped and SetIndex have their theorems.
--   Sysfile: lib/utility.c. Sysfile.Format has _fmtmatch, Sysfile.Line the lines of the
--     configuration file, Sysfile.Config configure_sysfiles; Directives, Sound and Configured have
--     the theorems.
--   Statistic: lib/statistics.c. Statistic.Calculate has a statistic and the rounds of its thread,
--     Statistic.Calls the calls; Extremes, Rounds, Reduced, Summary, Monitored, Period and Mixed have
--     the theorems. A thread is explicit: each of its rounds is one step, with the readings as its
--     argument.
--   Permissions: common/permissions.c. Permissions.Scan has the conversion of numbers by fscanf and
--     fprintf, Permissions.Files the functions; Printed, Users and Copy have the theorems.
--   Opaque: lib/opaque.h (Opaque.Key) and lib/opaque.c (Opaque.Map), with the theorems in
--     Opaque.Insert and Opaque.Zero.
--   Daemon: Request and Order have the set request and its comparison (attr_value_comp of
--     daemon/pwrapi_set.c), State the tables and set_insert and set_remove, FileIo and Gov the
--     control files (daemon/pwrapi_worker.c, common/gov.c) over the C library of Files, Worker the
--     steps of worker_process_item, and Socket the connections (daemon/pwrapi_socket.c) and
--     process_client_req (daemon/powerapid.c). Changes, Written, Sync, FirstChange, Client,
--     Replace, Rollback and Gate have the theorems on single calls. Runs has
--     the runs of the whole daemon as sequences of steps, with their invariant in Ordered and Steps.
--
-- How the code is translated. A pointer is an address (a number), a structure is a record, and
-- memory that is shared and freed is a function from addresses to optional records; a pointer that
-- may be NULL is an `Option` or the address 0. The daemon's global tables are one record `State`
-- that each function takes and returns. Numbers are natural numbers; where C wraps around, the
-- remainder by 2 ^ 64 or 2 ^ 32 is written out. A double is the number of its bit pattern, and
-- its order and its arithmetic are parameters. The clock's readings and the random numbers are
-- arguments. Tracing, logging and the freeing of memory that nothing refers to are left out.
--
-- Bounds and fuel. The loops over sequences are recursions on what is left of them. The loop of
-- opaque_map_insert is a recursion on the random numbers that are left, and enough are given as
-- soon as one of them is not 0 and no key of the map. A number is printed with fuel for 20 digits,
-- which is what a number below 2 ^ 64 needs. The rounds of _fmtmatch have fuel for the letters of the
-- first text and one more, and the loops that read a file have fuel for its bytes, one at least of
-- which every round takes.
--
-- Not modelled: the plugins that read hardware files, the discovery of devices, the clients, the
-- log, the daemon's start and main loop (input and output, and system calls); the names and relations
-- of objects, the creation and deletion of statistics, hints, the changes of bit masks, and what
-- contexts do besides keeping groups and statuses.
pub mod Base
pub mod Glib
pub mod Types
pub mod Group
pub mod PwrList
pub mod Opaque
pub mod Daemon
pub mod Object
pub mod Attribute
pub mod Sysfile
pub mod Permissions
pub mod Statistic
