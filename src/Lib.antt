-- ===== src/Lib.antt =====
-- Multithreading: the services below an application framework in C, each a part of the middleware:
-- semaphores, message queues, timers, read-write locks, and the handles by which callers name objects.
--
-- How the parts interact. A caller names every object by a HANDLE_T. mw/handle.c keeps the table from
-- handles to objects; `u_handle_get_type_obj` looks a handle up, and `u_handle_free` asks a callback of
-- the owner of the object. A read-write lock (mw/rwlock/rwl_api.c) is such an object: its functions look
-- the lock up, change its counters between `u_crit_start` and `u_crit_end`, and wait on or unlock one of
-- its two semaphores (mw/os_pthread/os_pthread_sema.c). A semaphore is a counter under a pthread mutex
-- and a condition variable. A message queue (mw/os_pthread/os_pthread_msg_q.c) stands by itself: a ring
-- of slots under a mutex and condition variables. Timers (timerd/_timer.c) stand in one circular list
-- under a mutex; a thread of its own takes those that are due and sends the message of each to its
-- application. A thread (mw/os_pthread/os_pthread_thread.c) is in a list by name and keeps private data
-- under keys; the critical section (mw/os_pthread/os_pthread_crit.c) is one for all threads.
-- Applications register with the broker (am/amb/amb.c), which sends requests to the application manager
-- (am/am.c); each runs in an environment with a handle and a thread (am/aee/aee.c); the manager starts
-- and ends them and passes messages on to them. The command line (cli/cli_parser.c) splits a line into
-- arguments and calls a command.
--
-- Files:
--   Prelude.antt            shared names, Boolean tests, 8-, 16- and 32-bit counters, lists
--   Os.antt                 inc/u_os.h: result codes; what pthread and the clock return; times
--   Ring.antt               circular lists with the fields next and previous; Ring/Walk.antt the paths
--   Ring/Insert.antt, Ring/Remove.antt
--                           an object is put in front of another one, or taken out
--   Sema.antt               mw/os_pthread/os_pthread_sema.c: u_sema_create, u_sema_delete, u_sema_lock,
--                           u_sema_lock_timeout, u_sema_unlock
--   Sema/Mutex.antt         the type mutex: owner, unit and nesting count
--   Sema/Counting.antt      the types binary and counting over sequences of calls
--   RwLock.antt             mw/rwlock/rwl_api.c, rwl.h, rwl_handle_cb.c: all functions, by critical section
--   RwLock/Invariant.antt   the counters of a lock against grants and blocked threads
--   RwLock/Acquire.antt     u_rwl_read_lock, u_rwl_write_lock
--   RwLock/Release.antt     u_rwl_release_lock
--   RwLock/Delete.antt      u_rwl_delete_lock
--   RwLock/System.antt      the step relation of any number of threads over one lock
--   RwLock/Safety.antt      what holds in the reachable states
--   RwLock/Handoff.antt     the write lock on its way from one thread to another
--   Handle/State.antt       mw/handle.c: the types, the table, make_handle, get_h_ctrl_from_handle
--   Handle/Alloc.antt       handle_init, u_handle_usr_init, realloc_handle, u_handle_alloc,
--                           handle_alloc_and_obj
--   Handle/Free.antt        u_handle_free, u_handle_free_all
--   Handle/Link.antt        handle_link_init, u_handle_link, u_handle_delink, handle_parse
--   Handle/Aux.antt         u_handle_alloc_aux_link_head, u_handle_link_to_aux, u_handle_delink_from_aux
--   Handle/Access.antt      handle_get_obj, u_handle_get_type_obj, u_handle_set_obj, u_handle_autofree
--   Handle/Pool.antt        the free list; Handle/Pool/* what set-up, growth, allocation, release do
--   Handle/Lookup.antt      the valid handles as a map: u_handle_alloc, u_handle_set_obj
--   Handle/Linked.antt      u_handle_link and the doubly linked list
--   Handle/Release.antt     u_handle_free and that map
--   MsgQ.antt               mw/os_pthread/os_pthread_msg_q.c: x_msg_q_create, x_msg_q_send,
--                           x_msg_q_receive, x_msg_q_receive_timeout, x_msg_q_num_msgs, x_msg_q_flush
--   MsgQ/Queue.antt         the ring as a bounded queue of messages
--   MsgQ/Send.antt, MsgQ/Receive.antt, MsgQ/Setup.antt
--                           the operations on that queue
--   MsgQ/Names.antt         the list of queues by name: x_msg_q_create, x_msg_q_attach, x_msg_q_delete
--   MsgQ/Registry.antt, MsgQ/Attach.antt
--                           that list as one in which every name stands once
--   Timer.antt              timerd/_timer.c: timer_list_add, timer_list_remove, the parts of TimerProc
--   Timer/Api.antt          _timer_start, u_timer_start, u_timer_stop, u_timer_delete, u_timer_create,
--                           u_os_get_sys_tick, the inner loop of TimerProc
--   Timer/Order.antt        time_before and sorted lists of timers
--   Timer/Add.antt, Timer/Remove.antt, Timer/Start.antt, Timer/Expire.antt, Timer/Loop.antt
--                           the operations on the list of timers in order
--   Timer/System.antt       the calls and the timer thread, in any order
--   Ring/Chain.antt, Ring/Find.antt
--                           a circular list with its first object, and the search in it
--   Thread.antt             mw/os_pthread/os_pthread_thread.c: the structures
--   Thread/Priority.antt    from_sched_priority, to_sched_priority; Thread/Sched.antt both in a row
--   Thread/Own.antt         u_thread_set_pvt, u_thread_get_pvt, u_thread_del_pvt, the destructor's loop
--   Thread/Contents.antt, Thread/Delete.antt
--                           the private data as a table of keys
--   Thread/Names.antt       the list of threads: u_thread_create, u_thread_create_cli, u_thread_self,
--                           u_thread_set_pri, u_thread_get_pri, u_thread_get_name, u_thread_suspend,
--                           u_thread_resume, thread_key_destructor
--   Thread/Create.antt, Thread/Exit.antt
--                           that list as one in which every name stands once
--   Crit.antt               mw/os_pthread/os_pthread_crit.c: the steps of u_crit_start and u_crit_end
--   Crit/Exclusive.antt     what holds between the steps
--   Am.antt                 am/am.c, am/amb/amb.c: the structures
--   Am/Retry.antt           the loops that try u_app_send_msg again
--   Am/Apps.antt            am/am.c: _am_start_app, _am_exit_app, _am_broadcast_msg, _am_dispatch_msg,
--                           _am_app_process_msg_fct, u_am_get_app_handle_from_name
--   Am/Broker.antt          am/amb/amb.c: u_amb_register_app, _amb_lifecycle_req, u_amb_broadcast_msg,
--                           u_amb_dispatch_msg
--   Am/Deliver.antt         what a broadcast reaches
--   Am/Table.antt, Am/Requests.antt
--                           the manager's table, request by request
--   Am/Lifecycle.antt       start, messages and end of an application
--   Am/Join.antt            the broker and the manager together
--   Am/Notify.antt          am/am.c: _am_app_nfy_fct, with the loop of an application
--   Aee.antt                am/aee/aee.c: aee_add, aee_remove, aee_find_by_name, aee_get_handle_op,
--                           aee_send_data_op, aee_clean_relationships, aee_clean_up
--   Aee/Line.antt, Aee/Listed.antt
--                           the list of environments; Aee/Open.antt their handles
--   Aee/Calls.antt          am/aee/aee.c, am/aee/aee_api.c: aee_create_op, aee_main, u_aee_create
--   Aee/Main.antt           am/aee/appman.c: appman_main, its messages as a list
--   Cli.antt                cli/cli_parser.c: _str2int, _find_cmd_argv
--   Cli/Number.antt         printed numbers; Cli/Split.antt the buffers of the arguments
--   Cli/Words.antt          a line of words
--   Cli/Command.antt        _search_tbl, _parse_cmd; Cli/Dispatch.antt names with dots
--   Cli/Levels.antt         what a name with dots means, told from the tables
--   Cli/Attach.antt         cli_parser_attach_cmd_tbl; Cli/Sorted.antt its sorting loop
--   Cli/Detach.antt         cli_parser_detach_cmd_tbl; Cli/Undo.antt both in a row
--   */Examples.antt         concrete values
--
-- How the model stands for the code. Structures are records and enums are data types. A pointer is a
-- number, or an index of the table; the union `u` of H_CTRL_T is one field. UINT8, UINT16 and UINT32
-- counters wrap around. An INT32 code is a constructor with the name of the macro. ABORT is a value of
-- its own (`abort`, `aborted`, `none`), and a VERIFY of a pthread call is taken to hold. `fault` stands
-- for undefined behaviour, and `unfinished` for a loop that is not over when its fuel is used up.
-- malloc, calloc and realloc, pthread, the clock, the execution environment of the applications and the
-- callbacks of the callers are parameters. A delete function of private data is taken not to change the
-- private data.
--
-- Atomic steps. A call of a semaphore or a message queue is one step, with a wait as a list of wake-ups,
-- each with the state it finds. A critical section of a read-write lock is one step together with the
-- `u_sema_unlock` or the release of the object that follows right behind it, and the end of a wait
-- together with the critical section behind it. A call on the table of handles is one step with its
-- callback, which may change the table. A call on timers is one step, and so is a round of the timer
-- thread up to the point where it releases the mutex for the callback; `expire_due` is its rounds
-- in a row, with what other threads do in between as parameters.
--
-- The critical section itself is cut at every access to its variables.
--
-- Bounds and fuel. `SIZE_T` has 4 or 8 bytes in a message queue, where it is the field `size_t`: the
-- constant 4 of the code fits the first. Elsewhere a SIZE_T and a pthread_t have 64 bits. The theorems
-- on reachable states hold while grants and blocked threads are fewer than 65536, the range of the
-- counters. `fill`, the loop of the set-up and of the growth, has as fuel one more than the structures
-- to add, which is enough for every limit below 65536. `free_loop` and `parse_loop` depend on callbacks
-- and take their fuel from the caller. `find_place`, the search in the list of timers, has enough fuel
-- with the number of timers in the list; `expire_due`, the inner loop of TimerProc, with one more than
-- the nanoseconds by which the timers of the list are over, in all. In the reachable states a step has
-- enough fuel by definition (`Enough`). The search for a name has enough fuel with the number of queues
-- or threads, that of an environment and its removal with one more than their number, the deletion of
-- private data with one more than its blocks, the split of a line and the search for a command with one
-- more than the characters of the line or the name.
--
-- Not modelled: the command-line commands of the handle library, the thread that frees ended threads and
-- u_thread_delay (only calls of pthread and of the clock), the waits of the timer thread, set-up and
-- release of the application manager and its broker, and the threads that wait for a notification, the
-- current directory and the terminal of the command line, u_app_start, u_app_send_msg and u_app_exit
-- (am/aee/appman.c), the network code, the process communication and the debug utilities.
pub mod Prelude
pub mod Os
pub mod Ring
pub mod Sema
pub mod RwLock
pub mod Handle
pub mod MsgQ
pub mod Timer
pub mod Thread
pub mod Crit
pub mod Am
pub mod Aee
pub mod Cli
