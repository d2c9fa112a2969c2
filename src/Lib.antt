-- ===== src/Lib.antt =====
-- Models of the programs of this repository, and theorems about them.
--
-- The repository holds separate C programs. Sixteen of them are modelled, each in a module of its own
-- (three small kernel modules in one), over the common helpers of Base: tests into Bool, list
-- operations, C strings as lists of byte values, decimal numbers.
--
-- - module2/4_3/contacts.c, contacts.h, main.c: the phone book.
--   Contacts is the search tree: `insert`, `compare`, `countNodes`, `storeInOrder`,
--     `buildBalanced`, `balanceTree`, `findMin`, `deleteNode`, `printTree`, `printTreeWithBranches`.
--     A pointer to a node is a tree value; `compare` is `compare_contacts`.
--   Contacts.Input is the reading of lines; Contacts.Book is `addContact`, `editContact`,
--     `deleteContact`, `showContacts` and the menu, as functions of the book, of what the
--     surroundings decide (`Env`) and of the bytes that are still to be typed.
--   Contacts.Order, Sorted, Insert, Balance, Delete, Deletion and the modules under Contacts.Book
--     hold the proofs.
-- - module5/06/firewall.c: Firewall, with `firewall_hook`, `firewall_write` and `firewall_read` on the
--   list of blocked addresses; proofs in Firewall.Writes and Firewall.Reads.
-- - module3/02/broker.c, utils.c, publisher.c, subscriber.c, main.c: Broker, one round of the broker as
--   `serve` on its two tables; Broker.Programs has the texts of the other programs and the
--   choice of main.c. Proofs: Broker.Tables, Valid, Delivery, Texts, Programs.Sessions and
--   Programs.Subscriptions.
-- - module3/cross1/checksum.c, server.c, client.c: UdpEcho, with `udp_checksum` and the reaction of the
--   server to a packet, `receive`; proofs in UdpEcho.Checksum, Clients and Numbers; UdpEcho.Exchange has the
--   client and a line on its way to the server and back.
-- - module3/07/server.c, chat.h: Chat, the clients of the chat server with `broadcast_message`,
--   `remove_client` and `add_client`; Chat.Files, the transfer of files and
--   `handle_client_message`; Chat.Loop, `send_all` of chat_utils.c and the
--   loop of `main`; Chat.Shutdown, the directory of the files at the start and the signal handler;
--   proofs in Chat.Broadcast, Delivery, Handling, Uploads and Interleaved.
-- - module3/07/client.c: Chat.Terminal, what the client program sends, receives and stores; proofs about
--   a file on its way from client to client in Chat.Exchange.
-- - module3/cross2/taxi.c, driver.c, common.h: Taxi, the requests that a driver answers and the
--   dispatcher's table of drivers; Taxi.Commands, its command lines; proofs in Taxi.Driver and
--   Taxi.Table.
-- - module3/05/producer.c, consumer.c and the structures of ipc_utils.h: SharedBlocks, one producer and
--   any number of consumers on shared memory. A schedule is a list of turns, a turn is the code of a
--   process up to its next release of the semaphore. Proofs: SharedBlocks.Sums, Processing and
--   Interleaved (what all turns keep), Blocks, Progress and Memory. A write beyond the memory, which the code
--   does not notice, ends the model of a run: `none`.
--   SharedBlocks.SetUp is ipc_utils.c and main.c, which set the memory and the semaphore up and take them
--   away; SharedBlocks.SystemV is the same of module3/04. Proofs: SharedBlocks.SetUp.CleanUp.
-- - module2/6_3/calculator.c, main.c: Calculator, the loading of commands from a directory and the menu;
--   `double`, the loader and the directory are parameters. Proofs: Calculator.Plugins and Menu.
-- - module3/08/raw_udp_capture.c and the choices of its main.c: Capture, the filters and the loop of the
--   capture on what `recv` gives, with a buffer that keeps what earlier frames left in it;
--   Capture.Report, the saved report. Proofs: Capture.Frames, Selection and Filters.
-- - module3/01/process.c, file_utils.c: PipeCopy, the child that copies files out of the chunks that it
--   reads from a pipe. Proofs: PipeCopy.Headers, Copies and Sessions.
-- - module5/04/chardev.c, module5/02/procmod.c, module5/03/kbleds.c: Drivers, with CharDevice, ProcFile
--   and Leds. Drivers.Loading has the functions init and exit of these and of module5/05/netlinkmod.c
--   and module5/06/firewall.c; proofs in Drivers.Loading.Unloaded.
-- - module3/03/chat.c, queue.c, signal.c: QueueChat, two processes over two message queues, which are a
--   parameter, `MessageQueues`. A step is the code around one call on a queue or one look at the
--   keyboard. Proofs: QueueChat.Places, Steps, Delivery, Ends, Drain and Names.
-- - module3/06/chat.c, utils.c, network.c: UdpChat, the chat by broadcast; proofs in UdpChat.Delivery.
--
-- The modules named Examples apply the theorems to small inputs.
--
-- Fuel and bounds. `build_balanced` and `delete_node` recurse on fuel: `balance_tree` gives one more
-- than the number of nodes, `delete_from` too. `broadcast_message` has fuel for the depth of its
-- nested removals, each of which takes a client away. The input loops of the phone book have fuel
-- for one round per byte still to be typed and two more: a round takes a byte, or the input has
-- ended and all further rounds are alike. In Contacts and Firewall numbers are natural numbers, since
-- their counts are bounded by the memory or by 32. The checksum wraps at 32 bits as in the source.
-- The message counter of a client of the echo server does not wrap. The numbers of the taxi programs and the sizes
-- of files in the messages of the chat are cut down to an `int`.
--
-- Results of the operating system and uninitialised memory are arguments: whether `malloc` and
-- `copy_from_user` succeed, what a buffer held before, which byte lies behind the data. A write outside
-- an array is a result of its own (`fault`, `overflow`, or `none` where the definition says so).
--
-- Frames, chunks, messages and turns come as lists: a loop that waits for the next one ends with the
-- list. `capture` and `child_process` recurse on it, so they have no fuel.
--
-- Not modelled: most of what the programs print for people, the set-up of sockets, the creation of the processes
-- but for the shared-memory programs, signals but for those of the two chats, module3/01/main.c with its named
-- pipes, producer.c and consumer.c of module3/04 (the same code as in module3/05), the tests of the phone book,
-- and the program netlink_user.c.
pub mod Base
pub mod Contacts
pub mod Firewall
pub mod Broker
pub mod UdpEcho
pub mod Chat
pub mod Taxi
pub mod SharedBlocks
pub mod Calculator
pub mod Capture
pub mod PipeCopy
pub mod QueueChat
pub mod Drivers
pub mod UdpChat
