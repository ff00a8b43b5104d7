-- ===== src/Lib.antt =====
-- SHP, a smart house: a client runs on a board with sensors, a proxy collects the messages of
-- the client in a queue and passes them on, and a head shows them on a screen. The three
-- programs share the messages, the queue and the sockets of this development.
--
-- Messages (src/message.hpp, src/message.cpp): Message holds the object with its header and
-- its block of bytes, and all its operations; a field is a tag, a length and a value.
-- Message/Fields says which list of fields a block stands for, Message/Add and Message/Get
-- are about adding and finding a field, Message/Wire about the header's bytes,
-- Message/Bounds about payloads that no sender of this program makes.
--
-- Queue (src/queue.hpp, src/queue.cpp): a map from a 32-bit id to a message, with the last id
-- given. All operations hold the mutex from the first statement to the last, so that each is
-- one step and the runs of two threads are the sequences of steps (Queue/Threads);
-- Queue/Wrapped is about the time after its ids have wrapped. Queue/Order is about the ids,
-- Queue/Fifo about the order of the messages.
--
-- Operating system: Os is a record of the system calls with a state that is not looked into,
-- Os/Actions the monad in which the code runs, Os/Laws what POSIX documents of the calls,
-- Os/Line a small system for which the laws are proved. Os/Ends says that code ends without
-- undefined behaviour.
--
-- Sockets (src/socket.cpp, src/socket_client.cpp, src/socket_server.cpp): Socket has the
-- functions on a descriptor, with the loops of send_data and recv_data; Transfer puts a
-- message on a connection and takes one off it, which is the same text in the two socket
-- classes; SocketClient and SocketServer are the two classes, and SocketServer/Reception has
-- what comes to a server in one round.
--
-- Client (src/client_process_event.cpp, src/client_process_version.cpp): Client has the
-- exchange of one message with the proxy and process_event, which takes the oldest message
-- off the queue when it has been answered; Update has process_version with the unpacking of a
-- new program, with zlib and the file system as parameters; Update/Unpacking is about a
-- complete stream, Update/Courses about any course of the calls of inflate.
--
-- Configuration (src/head_config.cpp, src/proxy_config.cpp): what the proxy and the head take
-- from a message with a client's id, its name and its sensors. Configuration/Pointers says
-- what the pointers left by a search point to, Configuration/Screen how the table of sensor
-- states is made, Configuration/Reading what the two functions read.
--
-- Announcement (src/client_process_config.cpp): Client/Configure has the message with the
-- client's settings and the exchange, Client/Announcing how the block of sensor settings is
-- filled, Client/Announced the fields of the message and its way over the proxy to the head,
-- Client/Concluding the result.
--
-- Sensors (src/sensors/sensor.hpp, src/sensors/sensor_event.cpp, and the callbacks of
-- src/client_sensor_manager.cpp): Sensor has a sensor that reports events, with what wiringPi
-- does as a parameter; Sensor/Building has the fields of an event's message, Sensor/Reporting
-- what one task puts into the queue, Sensor/Shown the way of an event to the screen.
--
-- Head (src/head_main.cpp): Head shows an event on the table of sensors, with localtime as a
-- parameter, of which hours, minutes and seconds have two digits; Head/Showing says what
-- changes. Head/Thread has the rounds of the working thread and of the loop, Head/Serving
-- what a round does whatever comes. Head/Screen has what show_screen prints, Head/Table what
-- a table of sensors stands for, Head/History the head from its start on through
-- registrations and events.
--
-- Proxy (src/proxy_main.cpp, src/proxy_event.cpp, src/proxy_command.cpp,
-- src/proxy_register.cpp, src/proxy_version.cpp): Proxy has three of its handlers,
-- Proxy/Version the one of a version, with the directory as a parameter, and Proxy/Thread the
-- rounds of the working thread and of the loop that passes messages on; Proxy/Handling says
-- what an event does to the queue, Proxy/Registering which fields the answer to a
-- registration has, Proxy/Registered what a head takes from it, Proxy/Updating which version
-- is answered with, Proxy/Serving what each kind of message comes to, Proxy/Rounds what a
-- whole round does, Proxy/Forwarding what the loop does to the queue.
--
-- Sensors of the client (src/client_sensor_manager.cpp): Manager makes the sensors from the
-- settings and activates them, Manager/Making says which sensors are made, Manager/Activating
-- which are active. Outputs (src/sensors/sensor_led.cpp, src/sensors/sensor_relay.cpp,
-- src/sensors/sensor_servo.cpp) has what happens on an output's pin, Outputs/Angles the
-- pulses of the servo; Outputs/Relay has the relay, Outputs/Levels the level of a pin after
-- the calls of an LED or a relay.
--
-- Paths over the connections: Transfer/Through says what one program receives of what another
-- sends, Transfer/Trip names this as a relation between two messages, with Memory/Arrives and
-- Message/Arriving for the bytes that were never written, in whose place any may come.
-- Travels/Pipeline puts the queues of the three programs together, with their rounds as the
-- steps of a relation, of which any may come at any time and each is one step: what a thread
-- of the same program does during a round is not seen, save that a queue may be added to
-- between two rounds. Travels/Rounds has what a round does to the queue of its program,
-- Travels/Ordered the order of the events, Travels/Lossless the runs in which no round fails,
-- with Travels/InOrder and Travels/Lines on lists. Travels follows an event from the sensor
-- to the head's screen, and the settings of the sensors from the client by way of the proxy
-- to the head.
--
-- Client's program (src/client_main.cpp, src/client_config.cpp): ClientMain is the machine of
-- states with its fall-through, with what the called functions return as an input of each
-- round, ClientMain/Running the order of the calls; Settings reads the settings, with
-- libconfig as a parameter, Settings/Reading says which items make valid settings,
-- Settings/Whole which files do.
--
-- Log (src/debug.hpp, src/debug.cpp): Debug has the level of indentation, in Debug/Level, and
-- the lines of an array, in Debug/Rows.
--
-- Older server (server/core_class.hpp, server/core_class.cpp): Server has its table of
-- probes, Server/Probes what it holds after any registrations. Version (src/version.cpp) has
-- the numbers of the build.
--
-- DHT sensors (src/sensors/sensor_dht.cpp): Dht reads the bits off the pin, checks the sums,
-- computes the values and retries, with wiringPi as a parameter; Dht/Values is about frames,
-- Dht/Reading about do_task.
--
-- Shared: Base passes on the library's names and has lists over native numbers, Boolean
-- tests, and the outcomes of C++ code (done, fault for undefined behaviour, out_of_fuel);
-- Memory has blocks of bytes, in which a cell not yet written is none, with memcpy and
-- little-endian numbers; ErrorCodes is src/error_codes.hpp.
--
-- Fuel: the search for a field has one round more than the block has bytes, and each round
-- moves by eight at least or ends; send_data and recv_data have one round more than the bytes
-- wanted, since a round that does not end the loop moves one byte at least. The loops that
-- wait for a level of a bus or a pin, and the loop that unpacks an update, have a fuel that
-- the caller gives; the number of reads for which a level can stand, and the length of what
-- is unpacked, say how much is enough. That the fuel lasts for the search for a field is a
-- lemma of Message/Bounds, where a read outside the block counts as an end; of the other
-- loops it is part of the results.
--
-- Not modelled: lines of the log; failing allocations, which throw; time_t has eight bytes,
-- as on 64-bit systems. A pointer that is moved outside its block and read through is
-- undefined, as in the language; that it could wrap to a place inside the block, on a machine
-- with 32-bit pointers, is not modelled. atoi has a long of 64 bits that saturates. The
-- structures of server/protocol.h, which nothing uses. Threads are started, cancelled and
-- joined by code that is left out, and so are the ends of the three main functions, which
-- their loops never reach without a failure. The screen of the head is the list of the calls
-- of printf, without the bytes that printf makes of them.
pub mod Base
pub mod ErrorCodes
pub mod Memory
pub mod Message
pub mod Queue
pub mod Os
pub mod Socket
pub mod Transfer
pub mod SocketServer
pub mod SocketClient
pub mod Configuration
pub mod Client
pub mod Dht
pub mod Update
pub mod Proxy
pub mod Sensor
pub mod Head
pub mod Debug
pub mod ClientMain
pub mod Settings
pub mod Manager
pub mod Outputs
pub mod Travels
pub mod Server
pub mod Version
