-- ===== src/Lib.antt =====
-- ICAP, the Inter Core Audio Protocol: a model of the library and of its two transports.
--
-- ICAP lets a core that plays and records audio (the application) call functions on a core that owns
-- the audio hardware (the device), and lets the device report to the application. Each call is a
-- message with a sequence number; the other side runs a callback and answers with a positive (ACK) or
-- negative (NAK) response. src/icap.c holds the protocol; it stands on the functions that
-- src/platform/icap_transport.h declares, and a platform's transport implements them and calls
-- icap_parse_msg for each message that comes in.
--
-- Which file models which part:
--   Prelude      C's int32_t and uint32_t, memcpy and the results of a C computation (Machine), lists
--                and Boolean tests over native numbers (Lists, Tests), bit fields (Bits).
--   Wire         include/icap.h and the layout in src/platform/icap_transport.h: constants and structs
--                (Types), 32-bit words as four bytes, low byte first (Words), structs as bytes (Codec),
--                and what comes back from them (RoundTrip, Message); the sample formats, rates and
--                their bit fields (Audio, Masks); where include/icap_compiler.h makes the compilers
--                place the members (Layout).
--   Core         src/icap.c: the instance, the callbacks and the transport's interface (Model),
--                icap_send_response, icap_send_ack, icap_send_nak (Reply), the message handlers of
--                the two sides (Application, Device), icap_parse_msg (Parse), the four init and deinit
--                functions (Init), icap_send_msg and the functions that call it (Request). Verdict says
--                what a message deserves, Answers compares the handlers with it, Typed and Lifecycle
--                are about the callbacks that an instance points to.
--   BareMetal    src/platform/icap_bm_rpmsg-lite.c and include/icap_bm_rpmsg-lite.h: the state and
--                what comes from outside (Transport), the ring of received messages (Fifo), the
--                transport's functions, icap_put_msg and icap_loop (Loop), icap_wait_for_response
--                (Wait). The other files are about handling messages (Keeps, Sound, Rejects),
--                waiting (Ends, Await, Copied; Unanswered and Silence for a response that does not come, Eventually
--                for one behind other messages),
--                sending (Sends, Deliver) and initialising again (Stale, Restart).
--   Linux        src/platform/icap_linux_kernel_rpmsg.c and its header: the state and the kernel's socket
--                buffers, queues and rpmsg bus as an interface with laws (Transport), the transport's
--                functions (Respond), icap_wait_for_response in pieces (Wait), threads (System) and
--                the transport below one call of icap_send_msg (Link). Find, Inv, Moves, Steps and
--                Reachable carry the invariant of the threads; Safety, Notify, Shutdown and Await
--                are about waiting, incoming responses, the end, and one whole call.
--   Rpc          both sides of a call together: a message as it arrives (Received), the device that
--                handles it (Server), the application that waits (Client), the call (Call), calls that
--                keep the response (Kept), for a number (Number), with a descriptor (Buffer), for a
--                subdevice's features (Features), a request without its argument (Short), a call
--                while other messages come in (Busy), the device's reports (Report), and the call of an
--                application in a Linux kernel (Kernel).
--   Net          the two sides over bare metal, whose calls and messages come in any order, as a step
--                relation on the two instances and the messages that each has handled. Whole is about
--                one message, First about the first one that a device receives, Takes and Sides say
--                what handling one does, Asks what one call does; Inv, Connected and Handled carry the
--                invariant, Started is about the state after both initialisations, Answers, Drained
--                and Settles draw the conclusions.
--   Tests        data (Data) and the theorems at concrete inputs.
--
-- How the state corresponds. An Instance is struct icap_instance over the transport's own state; a
-- State is an instance with its history, the list of what others can see: callbacks called, bytes
-- sent, receive buffers given back, readings of the clock. What the environment answers (a callback's
-- result, the result of rpmsg_lite_send, the clock, the messages of the receive interrupt) is a
-- function of the history, so that it may differ from call to call. A callback does not change the
-- instance that calls it. The result of a C computation is a Run: it returns, it faults (memcpy past an
-- object, a call through a callback of the other side), or it runs on, having used up the rounds granted
-- to icap_wait_for_response. A function whose pointer argument may be NULL takes an Option.
--
-- Bounds. A word has 32 bits, written out as % 2 ^ 32 or as a bound; a payload has at most 264 bytes,
-- the size of the union, and a struct icap_msg 304. The ring has ten slots and holds nine messages. The
-- rounds of icap_wait_for_response are an argument of the model; the number that is enough follows from
-- when the clock passes ICAP_MSG_TIMEOUT_US. The receive interrupt comes before each round of a wait,
-- and in BareMetal.Fifo.Interrupt at any point of icap_loop at which the ring is read or written. The
-- size of the response buffer is that of the list last_response, whatever RL_BUFFER_PAYLOAD_SIZE is.
--
-- Layout. A struct's members are placed one behind the other, each at a multiple of its alignment, which
-- packing limits to one byte; that is C's rule and what the two packing notations mean to the compilers.
--
-- What comes from outside: rpmsg_lite_send, the constants RL_HOLD and RL_ERR_NO_BUFF, the clock, the
-- arrivals and the callbacks are parameters. Memory that the C code leaves uninitialised (the local
-- features of icap_device_parse_msg, the response of the calls that wait) is a parameter too.
--
-- Net. rpmsg_lite_send finds a free buffer for every message, rpmsg keeps the order of the messages of
-- each side, and the receiver's ring is never full when one comes in; without that messages are lost,
-- and the protocol does not repeat them. A device that has no peer yet learns its address from the
-- first message, and does not report before. One step is a whole call up to its wait, or the whole
-- handling of a message by icap_parse_msg, which icap_loop calls for the oldest message of the ring.
--
-- The Linux transport. A socket buffer is its hint, its memory and the length in use; reading a buffer
-- that is not allocated faults. The functions of the kernel are the fields of a record, and their
-- documented behaviour is a record of laws. A critical section (a mutex or a spinlock held) is one step
-- of a thread; the steps of any number of threads, and of the rpmsg callback, come in any order. The
-- counter of messages wraps at 2^32, and what needs its numbers to be distinct speaks of fewer steps.
-- icap_deinit_transport is not one of these steps: what is said of reachable states holds before it, and
-- Linux.Shutdown is about what it leaves. Where a call keeps its response is an argument of the thread's
-- step.
--
-- What is not modelled: include/icap_linux_rpmsg_chardev.h, which has no code; the locks of the bare metal transport, which are
-- empty functions; a signal during rpmsg_send.
pub mod Prelude
pub mod Wire
pub mod Core
pub mod BareMetal
pub mod Linux
pub mod Tests
pub mod Rpc
pub mod Net
